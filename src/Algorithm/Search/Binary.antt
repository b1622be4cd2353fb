-- ===== src/Algorithm/Search/Binary.antt =====
-- `binarySearch` of algorithm/search.hpp.
use cpp_prac.Prelude.{
  ℕ, zero, suc, ◌+◌, ◌-◌, ◌%◌, ◌^◌, ap, sym, ◌<◌, ◌≤◌, ◌∙◌, ◌≡◌, ◌≢◌, ◌⊎◌, inl, inr, true, false,
  refl, none, some, List, [], ◌∷◌, arith, get_elem?, get_elem?-some, get_elem?-bound,
  get_elem?-none, Bool-cases, leb, ◌==◌, length,
}
use cpp_prac.Prelude.Order.{Order, lt, eq, eq_sound, Ge}
use cpp_prac.Prelude.Int.{pos}
use native.Mathlib.Decide.{dec_lt}
use cpp_prac.Algorithm.Descending.{IsDescending, IsDescending-get_elem?}
use cpp_prac.Algorithm.Search.{
  Answer, found, absent, out_of_bounds, midpoint, before, to_int, size_mod, binary_loop,
  binary_search,
}

midpoint_bounds :
    (low high : ℕ)
    → low ≤ high
    → high < 2 ^ 63
    → (low ≤ midpoint low high) × (midpoint low high ≤ high)
unfolding midpoint
midpoint_bounds low high h k = omega arith

before_lem : (m : ℕ) → 0 < m → m < 2 ^ 63 → before m ≡ m - 1
unfolding before
before_lem m h k = omega arith

-- Where the target is above every element, `high` goes down to `0 - 1`, which wraps.
wrapped : before 0 ≡ 2 ^ 64 - 1
unfolding before
wrapped = refl

-- An index below 2^31 is the int that the search returns.
to_int-pos : (m : ℕ) → m < 2 ^ 31 → to_int m ≡ pos m
unfolding to_int
to_int-pos m h = ground arith

midpoint_wrapped : midpoint 0 (2 ^ 64 - 1) ≡ 2 ^ 63 - 1
unfolding midpoint
midpoint_wrapped = refl

module _ {ℓ} {A : Type ℓ} ⦃o : Order A⦄ where
  -- What a search promises: an index of the target, or the empty pointer when there is none.
  abbrev pub IsAnswer : List A → A → Answer → Type ℓ
  IsAnswer array target r =
      ((i : ℕ) × (r ≡ found (pos i)) × (get_elem? array i ≡ some target))
      ⊎ ((r ≡ absent) × ((j : ℕ) → get_elem? array j ≢ some target))

  -- Transitivity of `<` over `>=`.
  lt_of_Ge : (b v target : A) → Ge v b → lt v target ≡ true → lt b target ≡ true
  lt_of_Ge b v target h k =
      ground (arith, o.trans b v target, o.connected b v, o.trans v target b, o.irrefl v)

  lt-Ge_of : (target v b : A) → lt target v ≡ true → Ge b v → lt target b ≡ true
  lt-Ge_of target v b h k = ground (arith, o.trans target v b, o.connected b v)

  module _ (array : List A) (target : A) where
    positive :
        (m : ℕ) (v : A)
        → get_elem? array m ≡ some v
        → lt v target ≡ true
        → ((b : A) → get_elem? array 0 ≡ some b → Ge b target)
        → 0 < m
    positive zero v e h first = absurd (ground (arith, first v e))
    positive (suc m) v e h first = omega arith

    -- All elements before `low` are above the target.
    abbrev AboveBefore : ℕ → Type ℓ
    AboveBefore low = (j : ℕ) (b : A) → j < low → get_elem? array j ≡ some b → lt target b ≡ true

    -- All elements after `high` are below the target.
    abbrev BelowAfter : ℕ → Type ℓ
    BelowAfter high = (j : ℕ) (b : A) → high < j → get_elem? array j ≡ some b → lt b target ≡ true

    abbrev BelowAll : Type ℓ
    BelowAll = (j : ℕ) (b : A) → get_elem? array j ≡ some b → lt b target ≡ true

    module _ (fuel low high : ℕ) (v : A) (more : leb low high ≡ true)
        (e : get_elem? array (midpoint low high) ≡ some v) where
      step_found :
          eq target v ≡ true
          → binary_loop (suc fuel) array target low high ≡ found (to_int (midpoint low high))
      unfolding binary_loop
      step_found same = rw (more, e, same)

      step_left :
          eq target v ≡ false
          → lt v target ≡ true
          → binary_loop (suc fuel) array target low high
            ≡ binary_loop fuel array target low (before (midpoint low high))
      unfolding binary_loop
      step_left other left = rw (more, e, other, left)

      step_right :
          eq target v ≡ false
          → lt v target ≡ false
          → lt target v ≡ true
          → binary_loop (suc fuel) array target low high
            ≡ binary_loop fuel array target ((midpoint low high + 1) % size_mod) high
      unfolding binary_loop
      step_right other left right = rw (more, e, other, left, right)

    binary_loop_empty :
        (fuel low high : ℕ)
        → high < low
        → low ≤ high + 1
        → AboveBefore low
        → BelowAfter high
        → IsAnswer array target (binary_loop (suc fuel) array target low high)
    unfolding binary_loop
    binary_loop_empty fuel low high h k above below =
        inr (ground arith, λ j e. ground (arith, above j target, below j target, o.irrefl target))

    binary_loop_lem :
        (fuel low high : ℕ)
        → IsDescending array
        → ((b : A) → get_elem? array 0 ≡ some b → Ge b target)
        → high < length array
        → length array ≤ 2 ^ 31
        → low ≤ high + 1
        → high + 1 < fuel + low
        → AboveBefore low
        → BelowAfter high
        → IsAnswer array target (binary_loop fuel array target low high)
    binary_loop_lem zero low high d first inside small order enough above below =
        absurd (omega arith)
    binary_loop_lem (suc fuel) low high d first inside small order enough above below =
        elim (Bool-cases (leb low high)) [
          | inr done ↦ binary_loop_empty fuel low high (ground arith) order above below
          | inl more ↦
              let m = midpoint low high in
              let bounds = midpoint_bounds low high (ground arith) (omega arith) in
              let (v, e) = get_elem?-some array m (omega arith) in
              elim (Bool-cases (eq target v)) [
                | inl same ↦ inl (
                  m,
                  step_found fuel low high v more e same ∙ ap found (to_int-pos m (omega arith)),
                  rw e (ap some (sym (eq_sound target v same))),
                )
                | inr other ↦ elim (Bool-cases (lt v target)) [
                  | inl left ↦
                      let above_zero : 0 < m = positive m v e left first in
                      rw
                        (
                          step_left fuel low high v more e other left,
                          before_lem m above_zero (omega arith),
                        )
                        (binary_loop_lem fuel low (m - 1) d first (omega arith) small (omega arith)
                          (omega arith) above
                          (λ j b lj p.
                            lt_of_Ge b v target
                              (IsDescending-get_elem? array m j v b d (omega arith) e p) left))
                  | inr right ↦
                      let up : lt target v ≡ true = ground arith in
                      let small_mid : (m + 1) % size_mod ≡ m + 1 = omega arith in
                      rw (step_right fuel low high v more e other right up, small_mid)
                        (binary_loop_lem fuel (m + 1) high d first inside small (omega arith)
                          (omega arith)
                          (λ j b lj p.
                            lt-Ge_of target v b up
                              (IsDescending-get_elem? array j m b v d (omega arith) p e))
                          below)
                ]
              ]
        ]

    loop_wrapped :
        (fuel : ℕ)
        → length array < 2 ^ 63
        → binary_loop (suc fuel) array target 0 (2 ^ 64 - 1) ≡ out_of_bounds
    unfolding binary_loop
    loop_wrapped fuel small =
        let far : get_elem? array (midpoint 0 (2 ^ 64 - 1)) ≡ none =
          get_elem?-none array _ (omega (arith, midpoint_wrapped)) in
        rw far

    overrun_lem :
        (fuel high : ℕ)
        → BelowAll
        → high < length array
        → length array < 2 ^ 63
        → high + 1 < fuel
        → binary_loop fuel array target 0 high ≡ out_of_bounds
    overrun_lem zero high all inside small enough = absurd (omega arith)
    overrun_lem (suc zero) high all inside small enough = absurd (omega arith)
    overrun_lem (suc (suc fuel)) high all inside small enough =
        let m = midpoint 0 high in
        let bounds = midpoint_bounds 0 high (omega arith) (omega arith) in
        let (v, e) = get_elem?-some array m (omega arith) in
        let left : lt v target ≡ true = all m v e in
        let step = step_left (suc fuel) 0 high v (ground arith) e (ground arith) left in
        elim (dec_lt 0 m) [
          | yes above_zero ↦
              rw (step, before_lem m above_zero (omega arith))
                (overrun_lem (suc fuel) (m - 1) all (omega arith) small (omega arith))
          | no zero_mid ↦
              let at_zero : m ≡ 0 = omega arith in
              rw (step, at_zero, wrapped) (loop_wrapped fuel small)
        ]

  -- On a descending array of at most 2^31 elements whose first element is not below the target,
  -- `binary_search` ends with an index of the target, or with the empty pointer when the target is
  -- not in the array.
  pub binary_search-IsAnswer :
      (array : List A) (target : A)
      → IsDescending array
      → length array ≤ 2 ^ 31
      → ((b : A) → get_elem? array 0 ≡ some b → Ge b target)
      → IsAnswer array target (binary_search array target)
  unfolding binary_search
  binary_search-IsAnswer [] target d small first = inr (refl, λ j e. ground arith)
  binary_search-IsAnswer (x ∷ xs) target d small first = rw nonempty (
      binary_loop_lem (x ∷ xs) target (length (x ∷ xs) + 2) 0 (length (x ∷ xs) - 1) d first
        (omega arith) small (omega arith) (omega arith) (λ j b h e. absurd (omega arith))
        (λ j b h e. absurd (omega (arith, get_elem?-bound (x ∷ xs) j b e))))
    where
      nonempty : (suc (length xs) == 0) ≡ false
      nonempty = ground arith

  -- On every array with an element, of fewer than 2^63 of them, all below the target,
  -- `binary_search` reads past the end of the array: `mid - 1` wraps at index 0.
  pub binary_search-overruns :
      (array : List A) (target : A)
      → 0 < length array
      → length array < 2 ^ 63
      → ((j : ℕ) (b : A) → get_elem? array j ≡ some b → lt b target ≡ true)
      → binary_search array target ≡ out_of_bounds
  unfolding binary_search
  binary_search-overruns [] target some_element small all = absurd (omega arith)
  binary_search-overruns (x ∷ xs) target some_element small all = rw nonempty (
      overrun_lem (x ∷ xs) target (length (x ∷ xs) + 2) (length (x ∷ xs) - 1) all (omega arith)
        small (omega arith))
    where
      nonempty : (suc (length xs) == 0) ≡ false
      nonempty = ground arith
