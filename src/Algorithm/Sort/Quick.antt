-- ===== src/Algorithm/Sort/Quick.antt =====
-- `quickSort` of algorithm/sort.hpp.
use mathlib.Core.List.{not-mem-nil, append-nil, append_assoc, forall_mem-cons, perm_middle}
use mathlib.Core.List.Perm
use cpp_prac.Prelude.{
  ℕ, zero, suc, ◌+◌, ◌/◌, ◌≤◌, ◌<◌, ◌≡◌, refl, subst, inl, inr, List, [], ◌∷◌, ◌++◌, Mem, Perm,
  Pairwise, arith, leb, if◌then◌else◌, Bool-cases, length, length-append, take, drop,
  take-append-drop, length-drop,
}
use cpp_prac.Prelude.Order.{Order, lt, Ge, Ge-trans, lt-asymm}
use cpp_prac.Algorithm.Descending.{
  IsAbove, Ge-prop, IsSortOf, IsAbove-cons, IsAbove-perm, IsDescending-short, IsDescending-append,
}
use cpp_prac.Algorithm.Sort.{deal, quick_parts, quick_calls, quick_sort}

module _ {ℓ} {A : Type ℓ} ⦃o : Order A⦄ where
  -- The elements below the pivot, and those that are not.
  lows : A → List A → List A
  lows p [] = []
  lows p (x ∷ xs) = if lt x p then x ∷ lows p xs else lows p xs

  highs : A → List A → List A
  highs p [] = []
  highs p (x ∷ xs) = if lt x p then highs p xs else x ∷ highs p xs

  deal_lem :
      (p : A) (l low high : List A) (g : ℕ)
      → deal p l low high g ≡ (low ++ lows p l, high ++ highs p l, g + length l)
  unfolding deal lows highs
  deal_lem p [] low high g = ground (arith, append-nil low, append-nil high)
  deal_lem p (x ∷ xs) low high g = elim (Bool-cases (lt x p)) [
    | inl h ↦ rw h (
        ground (
          arith,
          deal_lem p xs (low ++ x ∷ []) high (g + 1),
          append_assoc low (x ∷ []) (lows p xs),
        ))
    | inr h ↦ rw h (
        ground (
          arith,
          deal_lem p xs low (high ++ x ∷ []) (g + 1),
          append_assoc high (x ∷ []) (highs p xs),
        ))
  ]

  lows-append : (p : A) (l r : List A) → lows p (l ++ r) ≡ lows p l ++ lows p r
  unfolding lows
  lows-append p [] r = refl
  lows-append p (x ∷ l) r = ground (arith, lows-append p l r)

  highs-append : (p : A) (l r : List A) → highs p (l ++ r) ≡ highs p l ++ highs p r
  unfolding highs
  highs-append p [] r = refl
  highs-append p (x ∷ l) r = ground (arith, highs-append p l r)

  lows-Ge : (p : A) (l : List A) → IsAbove p (lows p l)
  unfolding lows
  lows-Ge p [] = λ x m. absurd (not-mem-nil m)
  lows-Ge p (x ∷ xs) = elim (Bool-cases (lt x p)) [
    | inl h ↦ rw h (IsAbove-cons p x _ (lt-asymm x p h) (lows-Ge p xs))
    | inr h ↦ rw h (lows-Ge p xs)
  ]

  highs-Ge : (p : A) (l : List A) (a : A) → Mem a (highs p l) → Ge a p
  unfolding highs
  highs-Ge p [] = λ x m. absurd (not-mem-nil m)
  highs-Ge p (x ∷ xs) = elim (Bool-cases (lt x p)) [
    | inl h ↦ rw h (highs-Ge p xs)
    | inr h ↦ rw h ((forall_mem-cons (λ a. Ge-prop a p)).1 (h, highs-Ge p xs))
  ]

  highs-lows-perm : (p : A) (l : List A) → Perm (highs p l ++ lows p l) l
  unfolding lows highs
  highs-lows-perm p [] = Perm.rfl
  highs-lows-perm p (x ∷ xs) = elim (Bool-cases (lt x p)) [
    | inl h ↦
        rw h
          (Perm.trans (perm_middle (highs p xs) (lows p xs)) (Perm.cons x (highs-lows-perm p xs)))
    | inr h ↦ rw h (Perm.cons x (highs-lows-perm p xs))
  ]

  length-lows : (p : A) (l : List A) → length (lows p l) + length (highs p l) ≡ length l
  unfolding lows highs
  length-lows p [] = omega arith
  length-lows p (x ∷ xs) = ground (arith, length-lows p xs)

  -- A sort of lists of up to `n` elements.
  abbrev Sorts : (List A → ℕ → List A × ℕ) → ℕ → Type ℓ
  Sorts sort n = (l : List A) (g : ℕ) → length l ≤ n → IsSortOf l (sort l g).0

  joined-IsSortOf :
      (p : A) (others high low : List A)
      → IsSortOf (highs p others) high
      → IsSortOf (lows p others) low
      → IsSortOf (p ∷ others) (high ++ p ∷ low)
  joined-IsSortOf p others high low (dh, ph) (dl, pl) = (
    IsDescending-append high (p ∷ low) dh (Pairwise.cons below dl) (λ a m.
        let up = highs-Ge p others a ((Perm.mem_iff ph).0 m) in
        IsAbove-cons a p low up (λ x k. Ge-trans a p x up (below x k))),
    Perm.trans (perm_middle high low)
        (Perm.cons p (Perm.trans (Perm.append ph pl) (highs-lows-perm p others))),
  )
    where
      below : IsAbove p low
      below = IsAbove-perm p low _ pl (lows-Ge p others)

  quick_parts_lem :
      (sort : List A → ℕ → List A × ℕ) (n : ℕ) (before after : List A) (g : ℕ)
      → Sorts sort n
      → 0 < length after
      → length (before ++ after) ≤ n + 1
      → IsSortOf (before ++ after) (quick_parts sort before after g).0
  unfolding quick_parts
  quick_parts_lem sort n before [] g sorts some_element bound = absurd (omega arith)
  quick_parts_lem sort n before (p ∷ behind) g sorts some_element bound =
      rw
        (
          deal_lem p before [] [] g,
          deal_lem p behind (lows p before) (highs p before) (g + length before),
          ← lows-append p before behind,
          ← highs-append p before behind,
        )
        (let others = before ++ behind in
          let some_less = length-lows p others in
          let size = length-append before behind in
          let size' = length-append before (p ∷ behind) in
          let (d, q) =
            joined-IsSortOf p others _ _ (sorts (highs p others) _ (omega arith))
              (sorts (lows p others) _ (omega arith)) in
          (d, Perm.trans q (Perm.symm (perm_middle before behind))))

  quick_calls_lem : (fuel : ℕ) → Sorts (quick_calls fuel) fuel
  unfolding quick_calls
  quick_calls_lem zero l g h = (IsDescending-short l (omega arith), Perm.rfl)
  quick_calls_lem (suc fuel) l g h = elim (Bool-cases (leb (length l) 1)) [
    | inl short ↦ rw short (IsDescending-short l (ground arith), Perm.rfl)
    | inr long ↦
        let mid = length l / 2 in
        let whole = take-append-drop mid l in
        let more : 1 < length l = ground arith in
        rw long (
          subst (λ k. IsSortOf k (quick_parts (quick_calls fuel) (take mid l) (drop mid l) g).0)
            whole
            (quick_parts_lem (quick_calls fuel) fuel (take mid l) (drop mid l) g
              (quick_calls_lem fuel) (omega (arith, length-drop mid l)) (rw whole (omega arith))))
  ]

  -- `quick_sort` returns a descending rearrangement of its input, whatever the counter.
  pub quick_sort-IsSortOf : (array : List A) (g : ℕ) → IsSortOf array (quick_sort array g).0
  unfolding quick_sort
  quick_sort-IsSortOf array g = quick_calls_lem (length array) array g (omega arith)
