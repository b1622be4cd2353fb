-- ===== src/Prac/TextQuery/Queries.antt =====
-- The queries that prac/tq.cpp is for, and what it answers to them.
use cpp_prac.Prelude.{
  ◌%◌, Bool, true, false, ◌&&◌, ◌||◌, some, List, [], ◌∷◌, ◌++◌, ◌≡◌, refl, sym, ap, ◌∙◌, length,
  length-append, arith,
}
use mathlib.Core.List.{append_assoc, append-nil}
use cpp_prac.Prac.TextQuery.{
  Word, finds, occurs_in_file, intersect, unite, is_char, is_and, is_or, parsed, parse_words,
  parse_expr, eval_queue, eval_commands,
}
use cpp_prac.Prac.TextQuery.Meaning.{
  matching, occurs-matching, matching-intersection, matching-union,
}

-- A word that is no operator.
pub record Plain : Type 0 where
  pub word : Word
  pub no_and : is_and word ≡ false
  pub no_or : is_or word ≡ false

pub data Op : Type 0 where
  and_op or_op : Op

abbrev pub op_word : Op → Word
op_word and_op = 38 ∷ []
op_word or_op = 124 ∷ []

abbrev pub text_rest : List (Op × Plain) → List Word
text_rest [] = []
text_rest ((o, w) ∷ r) = op_word o ∷ w.word ∷ text_rest r

-- A line passes by its words from the left, with no precedence of one operator over the other.
abbrev pub passes : (Word → Bool) → List (Op × Plain) → Word → Bool
passes p [] = p
passes p ((and_op, w) ∷ r) = passes (λ l. p l && finds w.word l) r
passes p ((or_op, w) ∷ r) = passes (λ l. p l || finds w.word l) r

op_word-is_op : (o : Op) → (is_and (op_word o) || is_or (op_word o)) ≡ true
unfolding is_char
op_word-is_op and_op = refl
op_word-is_op or_op = refl

parse-rest :
    (commands : List Word) (r : List (Op × Plain))
    → length commands % 2 ≡ 1
    → parse_words true commands (text_rest r) ≡ parsed (commands ++ text_rest r)
unfolding parse_words
parse-rest commands [] h = simp h (ap parsed (sym (append-nil commands)))
parse-rest commands ((o, w) ∷ r) h =
    simp (op_word-is_op o, w.no_and, w.no_or)
      (parse-rest (commands ++ op_word o ∷ [] ++ w.word ∷ []) r (
          omega (
            arith,
            length-append (commands ++ op_word o ∷ []) (w.word ∷ []),
            length-append commands (op_word o ∷ []),
          ))
        ∙ ap parsed (
            append_assoc (commands ++ op_word o ∷ []) (w.word ∷ []) (text_rest r)
            ∙ append_assoc commands (op_word o ∷ []) (w.word ∷ text_rest r)))

intersect-matching :
    (p : Word → Bool) (w : Word) (lines : List Word)
    → intersect (matching p 1 lines) (occurs_in_file lines w)
      ≡ matching (λ l. p l && finds w l) 1 lines
unfolding intersect occurs_in_file
intersect-matching p w lines =
    simp (occurs-matching w 1 lines) (matching-intersection p (finds w) _ 1 lines (omega arith))

unite-matching :
    (p : Word → Bool) (w : Word) (lines : List Word)
    → unite (matching p 1 lines) (occurs_in_file lines w) ≡ matching (λ l. p l || finds w l) 1 lines
unfolding unite occurs_in_file
unite-matching p w lines =
    simp (occurs-matching w 1 lines) (matching-union p (finds w) _ 1 lines (omega arith))

eval-rest :
    (p : Word → Bool) (lines : List Word) (r : List (Op × Plain))
    → eval_queue lines (matching p 1 lines) (text_rest r) ≡ some (matching (passes p r) 1 lines)
unfolding eval_queue is_char
eval-rest p lines [] = refl
eval-rest p lines ((and_op, w) ∷ r) =
    simp (intersect-matching p w.word lines) (eval-rest (λ l. p l && finds w.word l) lines r)
eval-rest p lines ((or_op, w) ∷ r) =
    simp (unite-matching p w.word lines) (eval-rest (λ l. p l || finds w.word l) lines r)

eval-first :
    (lines : List Word) (w : Plain) (r : List (Op × Plain))
    → eval_commands lines (w.word ∷ text_rest r)
      ≡ eval_queue lines (matching (finds w.word) 1 lines) (text_rest r)
unfolding eval_commands eval_queue occurs_in_file
eval-first lines w [] = simp (w.no_and, w.no_or, occurs-matching w.word 1 lines)
eval-first lines w ((o, w') ∷ r) = simp (w.no_and, w.no_or, occurs-matching w.word 1 lines)

-- An expression of words with an operator between each two is parsed on an empty queue as it
-- stands, and `evalCommands` then finds exactly the lines that pass it from left to right, in the order
-- and with the numbers that they have in the file.
pub eval-parse :
    (lines : List Word) (w : Plain) (r : List (Op × Plain))
    → (parse_expr [] (w.word ∷ text_rest r) ≡ parsed (w.word ∷ text_rest r))
      × (eval_commands lines (w.word ∷ text_rest r)
          ≡ some (matching (passes (finds w.word) r) 1 lines))
unfolding parse_expr parse_words
eval-parse lines w r = (
  simp (w.no_and, w.no_or) (parse-rest (w.word ∷ []) r refl),
  eval-first lines w r ∙ eval-rest (finds w.word) lines r,
)
