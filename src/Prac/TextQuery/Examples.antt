-- ===== src/Prac/TextQuery/Examples.antt =====
-- Runs of prac/tq.cpp, and the theorems about it at inputs.
use cpp_prac.Prelude.{◌≡◌, refl, false, some, List, [], ◌∷◌}
use cpp_prac.Prac.TextQuery.{
  Word, finds, is_char, is_and, is_or, parsed, missing_right, parse_expr, parse_words,
  eval_commands,
}
use cpp_prac.Prac.TextQuery.Meaning.{matching}
use cpp_prac.Prac.TextQuery.Queries.{Plain, Op, and_op, or_op, text_rest, passes, eval-parse}

not_op :
    (is_and (97 ∷ []) ≡ false)
    × (is_or (97 ∷ []) ≡ false)
    × (is_and (98 ∷ 99 ∷ []) ≡ false)
    × (is_or (98 ∷ 99 ∷ []) ≡ false)
unfolding is_char
not_op = (refl, refl, refl, refl)

-- The words a and bc.
abbrev word_a : Plain
word_a = record { word = 97 ∷ []; no_and = not_op.0; no_or = not_op.1 }

abbrev word_bc : Plain
word_bc = record { word = 98 ∷ 99 ∷ []; no_and = not_op.2; no_or = not_op.3 }

-- a | bc & a
abbrev operators : List (Op × Plain)
operators = (or_op, word_bc) ∷ (and_op, word_a) ∷ []

abbrev file : List Word
file = (120 ∷ 97 ∷ []) ∷ (98 ∷ 99 ∷ []) ∷ (97 ∷ 98 ∷ 99 ∷ []) ∷ []

-- The second line has bc and no a, so it does not pass.
file_lines :
    matching (passes (finds (97 ∷ [])) operators) 1 file
    ≡ record { line_content = 120 ∷ 97 ∷ []; line_number = 1 }
      ∷ record { line_content = 97 ∷ 98 ∷ 99 ∷ []; line_number = 3 }
      ∷ []
unfolding matching finds
file_lines = refl

empty_refused : parse_expr [] [] ≡ missing_right []
unfolding parse_expr parse_words
empty_refused = refl

eval-parse_example :
    (parse_expr [] (word_a.word ∷ text_rest operators) ≡ parsed (word_a.word ∷ text_rest operators))
    × (eval_commands file (word_a.word ∷ text_rest operators)
        ≡ some (matching (passes (finds word_a.word) operators) 1 file))
eval-parse_example = eval-parse file word_a operators
