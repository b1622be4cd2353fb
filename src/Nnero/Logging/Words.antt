-- ===== src/Nnero/Logging/Words.antt =====
-- The words that `logInit` of nnero/logging.cpp reads from the text of a file.
use cpp_prac.Prelude.{
  ℕ, Bool, true, false, not, ◌&&◌, arith, ap, sym, ◌∙◌, List, [], ◌∷◌, ◌++◌, ◌≡◌, refl,
}
use mathlib.Core.List.{append_assoc, append-nil}
use cpp_prac.Nnero.Logging.{Text, is_space, turns}

abbrev pub no_space : Text → Bool
no_space [] = true
no_space (c ∷ cs) = not (is_space c) && no_space cs

abbrev pub all_space : Text → Bool
all_space [] = true
all_space (c ∷ cs) = is_space c && all_space cs

and_split : (a b : Bool) → (not a && b) ≡ true → (a ≡ false) × (b ≡ true)
and_split a b h = ground arith

newline : is_space 10 ≡ true
unfolding is_space
newline = refl

turns_stop :
    (line : Text) (c : ℕ) (rest : Text)
    → is_space c ≡ true
    → turns true line (c ∷ rest) ≡ line ∷ turns false line rest
unfolding turns
turns_stop line c rest gap = simp (turns, gap)

turns_go_on :
    (line : Text) (c : ℕ) (rest : Text)
    → is_space c ≡ false
    → turns true line (c ∷ rest) ≡ turns true (line ++ c ∷ []) rest
unfolding turns
turns_go_on line c rest gap = simp (turns, gap)

-- A word that is read up to a newline, and up to the end of the file.
turns_in :
    (line w rest : Text)
    → no_space w ≡ true
    → turns true line (w ++ 10 ∷ rest) ≡ (line ++ w) ∷ turns false (line ++ w) rest
unfolding turns
turns_in line [] rest h =
    turns_stop line 10 rest newline ∙ ap (λ l. l ∷ turns false l rest) (sym (append-nil line))
turns_in line (c ∷ w) rest h =
    let (no_gap, more) = and_split (is_space c) (no_space w) h in
    turns_go_on line c (w ++ 10 ∷ rest) no_gap
    ∙ turns_in (line ++ c ∷ []) w rest more
    ∙ ap (λ l. l ∷ turns false l rest) (append_assoc line (c ∷ []) w)

turns_space : (line ending : Text) → all_space ending ≡ true → turns false line ending ≡ line ∷ []
unfolding turns
turns_space line [] h = refl
turns_space line (c ∷ cs) h =
    let gap : is_space c ≡ true = ground arith in
    simp (turns, gap) (turns_space line cs (ground arith))

-- The turns at the end: the last word is there once more where white space follows it.
abbrev pub last_turns : Text → Text → List Text
last_turns line [] = line ∷ []
last_turns line (c ∷ cs) = line ∷ line ∷ []

turns_last :
    (line w ending : Text)
    → no_space w ≡ true
    → all_space ending ≡ true
    → turns true line (w ++ ending) ≡ last_turns (line ++ w) ending
unfolding turns
turns_last line [] [] h k = ap (λ l. l ∷ []) (sym (append-nil line))
turns_last line [] (c ∷ cs) h k =
    let gap : is_space c ≡ true = ground arith in
    turns_stop line c cs gap
    ∙ ap (λ ls. line ∷ ls) (turns_space line cs (ground arith))
    ∙ ap (λ l. l ∷ l ∷ []) (sym (append-nil line))
turns_last line (c ∷ w) ending h k =
    let (no_gap, more) = and_split (is_space c) (no_space w) h in
    turns_go_on line c (w ++ ending) no_gap
    ∙ turns_last (line ++ c ∷ []) w ending more k
    ∙ ap (λ l. last_turns l ending) (append_assoc line (c ∷ []) w)

-- All five keys start with an l, which is 108.
pub turns_word :
    (line w rest : Text)
    → no_space w ≡ true
    → turns false line (108 ∷ w ++ 10 ∷ rest) ≡ (108 ∷ w) ∷ turns false (108 ∷ w) rest
unfolding turns is_space
turns_word line w rest h = turns_in (108 ∷ []) w rest h

pub turns_end :
    (line w ending : Text)
    → no_space w ≡ true
    → all_space ending ≡ true
    → turns false line (108 ∷ w ++ ending) ≡ last_turns (108 ∷ w) ending
unfolding turns is_space
turns_end line w ending h k = turns_last (108 ∷ []) w ending h k
