-- ===== src/Algorithm/Sort/Select.antt =====
-- `selectSort` of algorithm/sort.hpp.
use mathlib.Core.List.{not-mem-nil}
use mathlib.Core.List.Perm
use cpp_prac.Prelude.{
  ℕ, zero, suc, ◌+◌, ◌*◌, ◌≡◌, refl, inl, inr, List, [], ◌∷◌, Perm, Pairwise, arith, leb,
  if◌then◌else◌, Bool-cases, length,
}
use cpp_prac.Prelude.Order.{Order, lt, Ge, Ge-refl, Ge-trans}
use cpp_prac.Algorithm.Descending.{
  IsAbove, IsSortOf, IsAbove-cons, IsAbove-perm, IsDescending-short, higher, lower, exchange-perm,
  higher-Ge,
}
use cpp_prac.Algorithm.Sort.{select_pass, select_rounds, select_sort}

module _ {ℓ} {A : Type ℓ} ⦃o : Order A⦄ where
  pass-perm :
      (x : A) (ys : List A) (c : ℕ) → let r = select_pass x ys c in Perm (r.0 ∷ r.1) (x ∷ ys)
  unfolding select_pass
  pass-perm x [] c = Perm.rfl
  pass-perm x (y ∷ ys) c = Perm.trans (Perm.swap (lower x y) _ _) (
      Perm.trans (Perm.cons (lower x y) (pass-perm (higher x y) ys (c + 1))) (exchange-perm x y ys))

  pass-IsAbove :
      (x : A) (ys : List A) (c : ℕ) → let r = select_pass x ys c in Ge r.0 x × IsAbove r.0 r.1
  unfolding select_pass
  pass-IsAbove x [] c = (Ge-refl x, λ a m. absurd (not-mem-nil m))
  pass-IsAbove x (y ∷ ys) c =
      let r = select_pass (higher x y) ys (c + 1) in
      let (top, rest) = pass-IsAbove (higher x y) ys (c + 1) in
      let (over_x, over_lower) = higher-Ge x y in
      (
        Ge-trans r.0 (higher x y) x top over_x,
        IsAbove-cons r.0 (lower x y) r.1 (Ge-trans r.0 (higher x y) (lower x y) top over_lower)
            rest,
      )

  pass-length :
      (x : A) (ys : List A) (c : ℕ)
      → let r = select_pass x ys c in (length r.1 ≡ length ys) × (r.2 ≡ c + length ys)
  unfolding select_pass
  pass-length x [] c = omega arith
  pass-length x (y ∷ ys) c = ground (arith, pass-length (if lt x y then y else x) ys (c + 1))

  rounds_lem :
      (n : ℕ) (l : List A) (c : ℕ)
      → length l ≡ n
      → let r = select_rounds n l c in IsSortOf l r.0 × (2 * r.1 + n ≡ 2 * c + n * n)
  unfolding select_rounds
  rounds_lem zero [] c h = ((Pairwise.nil, Perm.rfl), omega arith)
  rounds_lem zero (x ∷ xs) c h = absurd (omega arith)
  rounds_lem (suc n) [] c h = absurd (omega arith)
  rounds_lem (suc n) (x ∷ xs) c h =
      let r = select_pass x xs c in
      let len = pass-length x xs c in
      let rest = rounds_lem n r.1 r.2 (omega arith) in
      (
        (
          Pairwise.cons (IsAbove-perm r.0 _ r.1 rest.0.1 (pass-IsAbove x xs c).1) rest.0.0,
          Perm.trans (Perm.cons r.0 rest.0.1) (pass-perm x xs c),
        ),
        omega arith,
      )

  -- `select_sort` returns a descending rearrangement of its input.
  pub select_sort-IsSortOf : (array : List A) → IsSortOf array (select_sort array).0
  unfolding select_sort
  select_sort-IsSortOf array = elim (Bool-cases (leb (length array) 1)) [
    | inl short ↦ rw short (IsDescending-short array (ground arith), Perm.rfl)
    | inr long ↦ rw long (rounds_lem (length array) array 0 refl).0
  ]
