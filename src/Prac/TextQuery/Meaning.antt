-- ===== src/Prac/TextQuery/Meaning.antt =====
-- What a query of prac/tq.cpp means.
use cpp_prac.Prelude.{
  ℕ, zero, suc, ◌+◌, ◌≤◌, Bool, ◌&&◌, ◌||◌, List, [], ◌∷◌, ◌≡◌, refl, sym, ap, ◌∙◌, if◌then◌else◌,
  length, Bool-cases, inl, inr, arith,
}
use cpp_prac.Prac.TextQuery.{Word, Result, finds, occurs_from, intersection, union}

-- The lines that pass a test, with their numbers.
unfoldable pub matching : (Word → Bool) → ℕ → List Word → List Result
matching p n [] = []
matching p n (line ∷ lines) =
    let rest = matching p (n + 1) lines in
    if p line then record { line_content = line; line_number = n } ∷ rest else rest

pub occurs-matching :
    (w : Word) (n : ℕ) (lines : List Word) → occurs_from w n lines ≡ matching (finds w) n lines
unfolding occurs_from matching
occurs-matching w n [] = refl
occurs-matching w n (line ∷ lines) = simp (occurs-matching w (n + 1) lines)

-- The number of the first result is at least n.
abbrev IsFrom : ℕ → List Result → Type 0
IsFrom n [] = Unit
IsFrom n (x ∷ xs) = n ≤ x.line_number

IsFrom-weaken : (n : ℕ) (xs : List Result) → IsFrom (n + 1) xs → IsFrom n xs
IsFrom-weaken n [] h = tt
IsFrom-weaken n (x ∷ xs) h = omega arith

matching-IsFrom : (p : Word → Bool) (n : ℕ) (lines : List Word) → IsFrom n (matching p n lines)
unfolding matching
matching-IsFrom p n [] = tt
matching-IsFrom p n (line ∷ lines) = elim (Bool-cases (p line)) [
  | inl e ↦ simp e (omega arith)
  | inr e ↦ simp e (IsFrom-weaken n (matching p (n + 1) lines) (matching-IsFrom p (n + 1) lines))
]

intersection-none : (k : ℕ) (xs : List Result) → intersection k xs [] ≡ []
unfolding intersection
intersection-none zero xs = refl
intersection-none (suc k) [] = refl
intersection-none (suc k) (x ∷ xs) = refl

intersection-none_left : (k : ℕ) (ys : List Result) → intersection k [] ys ≡ []
unfolding intersection
intersection-none_left zero ys = refl
intersection-none_left (suc k) ys = refl

intersection-left :
    (k : ℕ) (x : Result) (xs ys : List Result)
    → IsFrom (x.line_number + 1) ys
    → intersection (suc k) (x ∷ xs) ys ≡ intersection k xs ys
unfolding intersection
intersection-left k x xs [] h = sym (intersection-none k xs)
intersection-left k x xs (y ∷ ys) h = ground arith

intersection-right :
    (k : ℕ) (y : Result) (xs ys : List Result)
    → IsFrom (y.line_number + 1) xs
    → intersection (suc k) xs (y ∷ ys) ≡ intersection k xs ys
unfolding intersection
intersection-right k y [] ys h = sym (intersection-none_left k ys)
intersection-right k y (x ∷ xs) ys h = ground arith

intersection-same :
    (k : ℕ) (x : Result) (xs ys : List Result)
    → intersection (suc k) (x ∷ xs) (x ∷ ys) ≡ x ∷ intersection k xs ys
unfolding intersection
intersection-same k x xs ys = ground arith

pub matching-intersection :
    (p q : Word → Bool) (k n : ℕ) (lines : List Word)
    → length (matching p n lines) + length (matching q n lines) ≤ k
    → intersection k (matching p n lines) (matching q n lines) ≡ matching (λ l. p l && q l) n lines
unfolding matching
matching-intersection p q k n [] h = intersection-none k []
matching-intersection p q zero n (line ∷ lines) h = elim (Bool-cases (p line)) [
  | inl e ↦ grind (arith, e)
  | inr e ↦ elim (Bool-cases (q line)) [
    | inl f ↦ grind (arith, f)
    | inr f ↦ simp (e, f) (matching-intersection p q zero (n + 1) lines (grind (arith, e, f)))
  ]
]
matching-intersection p q (suc k) n (line ∷ lines) h =
    let x : Result = record { line_content = line; line_number = n } in
    let from_p = matching-IsFrom p (n + 1) lines in
    let from_q = matching-IsFrom q (n + 1) lines in
    let ps = matching p (n + 1) lines in
    let qs = matching q (n + 1) lines in
    elim (Bool-cases (p line)) [
      | inl e ↦ elim (Bool-cases (q line)) [
        | inl f ↦
            simp (e, f)
              (intersection-same k x ps qs
                ∙ ap (◌∷◌ x) (matching-intersection p q k (n + 1) lines (grind (arith, e, f))))
        | inr f ↦
            simp (e, f)
              (intersection-left k x ps qs from_q
                ∙ matching-intersection p q k (n + 1) lines (grind (arith, e, f)))
      ]
      | inr e ↦ elim (Bool-cases (q line)) [
        | inl f ↦
            simp (e, f)
              (intersection-right k x ps qs from_p
                ∙ matching-intersection p q k (n + 1) lines (grind (arith, e, f)))
        | inr f ↦
            simp (e, f) (matching-intersection p q (suc k) (n + 1) lines (grind (arith, e, f)))
      ]
    ]

union-none : (k : ℕ) (xs : List Result) → union k xs [] ≡ xs
unfolding union
union-none k [] = refl
union-none k (x ∷ xs) = refl

union-left :
    (k : ℕ) (x : Result) (xs ys : List Result)
    → IsFrom (x.line_number + 1) ys
    → union (suc k) (x ∷ xs) ys ≡ x ∷ union k xs ys
unfolding union
union-left k x xs [] h = ap (◌∷◌ x) (sym (union-none k xs))
union-left k x xs (y ∷ ys) h = ground arith

union-right :
    (k : ℕ) (y : Result) (xs ys : List Result)
    → IsFrom (y.line_number + 1) xs
    → union (suc k) xs (y ∷ ys) ≡ y ∷ union k xs ys
unfolding union
union-right k y [] ys h = refl
union-right k y (x ∷ xs) ys h = ground arith

union-same :
    (k : ℕ) (x : Result) (xs ys : List Result) → union (suc k) (x ∷ xs) (x ∷ ys) ≡ x ∷ union k xs ys
unfolding union
union-same k x xs ys = ground arith

pub matching-union :
    (p q : Word → Bool) (k n : ℕ) (lines : List Word)
    → length (matching p n lines) + length (matching q n lines) ≤ k
    → union k (matching p n lines) (matching q n lines) ≡ matching (λ l. p l || q l) n lines
unfolding matching
matching-union p q k n [] h = union-none k []
matching-union p q zero n (line ∷ lines) h = elim (Bool-cases (p line)) [
  | inl e ↦ grind (arith, e)
  | inr e ↦ elim (Bool-cases (q line)) [
    | inl f ↦ grind (arith, f)
    | inr f ↦ simp (e, f) (matching-union p q zero (n + 1) lines (grind (arith, e, f)))
  ]
]
matching-union p q (suc k) n (line ∷ lines) h =
    let x : Result = record { line_content = line; line_number = n } in
    let from_p = matching-IsFrom p (n + 1) lines in
    let from_q = matching-IsFrom q (n + 1) lines in
    let ps = matching p (n + 1) lines in
    let qs = matching q (n + 1) lines in
    elim (Bool-cases (p line)) [
      | inl e ↦ elim (Bool-cases (q line)) [
        | inl f ↦
            simp (e, f)
              (union-same k x ps qs
                ∙ ap (◌∷◌ x) (matching-union p q k (n + 1) lines (grind (arith, e, f))))
        | inr f ↦
            simp (e, f)
              (union-left k x ps qs from_q
                ∙ ap (◌∷◌ x) (matching-union p q k (n + 1) lines (grind (arith, e, f))))
      ]
      | inr e ↦ elim (Bool-cases (q line)) [
        | inl f ↦
            simp (e, f)
              (union-right k x ps qs from_p
                ∙ ap (◌∷◌ x) (matching-union p q k (n + 1) lines (grind (arith, e, f))))
        | inr f ↦ simp (e, f) (matching-union p q (suc k) (n + 1) lines (grind (arith, e, f)))
      ]
    ]
