-- ===== src/Algorithm/Search/Simple.antt =====
-- `simpleSearch` of algorithm/search.hpp.
use cpp_prac.Prelude.{
  ℕ, zero, suc, ◌+◌, ◌<◌, ◌≡◌, ◌≢◌, ◌⊎◌, inl, inr, false, refl, Option, none, some, List, [], ◌∷◌,
  arith, get_elem?, Bool-cases,
}
use cpp_prac.Prelude.Order.{Order, eq, eq_refl, eq_sound}
use cpp_prac.Algorithm.Search.{scan, simple_search}

module _ {ℓ} {A : Type ℓ} ⦃o : Order A⦄ where
  -- The target does not stand before index `n`.
  abbrev pub IsMissing : List A → A → ℕ → Type ℓ
  IsMissing array target n = (j : ℕ) → j < n → get_elem? array j ≢ some target

  -- What a linear search promises: the first index of the target, and the empty pointer exactly
  -- when there is none.
  abbrev pub IsFirst : List A → A → ℕ → Option ℕ → Type ℓ
  IsFirst array target c r =
      ((i : ℕ) × (r ≡ some (c + i)) × (get_elem? array i ≡ some target) × IsMissing array target i)
      ⊎ ((r ≡ none) × ((j : ℕ) → get_elem? array j ≢ some target))

  IsMissing-cons :
      (x : A) (xs : List A) (target : A) (n : ℕ)
      → eq x target ≡ false
      → IsMissing xs target n
      → IsMissing (x ∷ xs) target (suc n)
  IsMissing-cons x xs target n ne h zero le e = ground (arith, eq_refl target)
  IsMissing-cons x xs target n ne h (suc j) le e = h j (omega arith) e

  absent-cons :
      (x : A) (xs : List A) (target : A)
      → eq x target ≡ false
      → ((j : ℕ) → get_elem? xs j ≢ some target)
      → (j : ℕ) → get_elem? (x ∷ xs) j ≢ some target
  absent-cons x xs target ne h zero e = ground (arith, eq_refl target)
  absent-cons x xs target ne h (suc j) e = h j e

  scan_lem : (array : List A) (target : A) (c : ℕ) → IsFirst array target c (scan array target c)
  unfolding scan
  scan_lem [] target c = inr (refl, λ j e. ground arith)
  scan_lem (x ∷ xs) target c = elim (Bool-cases (eq x target)) [
    | inl hit ↦ inl (
      0,
      rw hit (ground arith),
      ground (arith, eq_sound x target hit),
      λ j h e. absurd (omega arith),
    )
    | inr miss ↦ elim (scan_lem xs target (c + 1)) [
      | inl (i, r, at, before) ↦
          inl (suc i, rw miss (ground arith), at, IsMissing-cons x xs target i miss before)
      | inr (r, out) ↦ inr (rw miss r, absent-cons x xs target miss out)
    ]
  ]

  -- `simple_search` returns the index of the first element that equals the target, and the empty
  -- pointer when no element does.
  simple_search-IsFirst :
      (array : List A) (target : A) → IsFirst array target 0 (simple_search array target)
  unfolding simple_search
  simple_search-IsFirst array target = scan_lem array target 0
