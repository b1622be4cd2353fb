-- ===== src/Algorithm/Sort/Bubble.antt =====
-- `bubbleSort` of algorithm/sort.hpp.
use mathlib.Core.List.{
  mem-cons_self, mem-cons_of_mem, forall_mem-cons, perm_middle, not-mem-nil, append-nil,
}
use mathlib.Core.List.Perm
use cpp_prac.Prelude.{
  ℕ, zero, suc, ◌+◌, ◌-◌, ◌*◌, ◌≡◌, refl, ap, inl, inr, List, [], ◌∷◌, ◌++◌, Mem, Perm, Pairwise,
  arith, leb, Bool-cases, length, length-append,
}
use cpp_prac.Prelude.Order.{Order, Ge, Ge-refl, Ge-trans}
use cpp_prac.Algorithm.Descending.{
  IsDescending, Ge-prop, Dominates, IsSortOf, IsAbove-cons, IsDescending-short, higher, lower,
  exchange-perm, higher-Ge,
}
use cpp_prac.Algorithm.Sort.{bubble_pass, bubble_rounds, bubble_sort}

module _ {ℓ} {A : Type ℓ} ⦃o : Order A⦄ where
  -- What a pass over `x ∷ xs` leaves in front, and what it carries to the end.
  front : A → List A → List A
  front x [] = []
  front x (y ∷ ys) = higher x y ∷ front (lower x y) ys

  carried : A → List A → A
  carried x [] = x
  carried x (y ∷ ys) = carried (lower x y) ys

  pass_lem :
      (x : A) (xs s : List A) (c : ℕ)
      → bubble_pass (length xs) (x ∷ xs ++ s) c ≡ (front x xs ++ carried x xs ∷ s, c + length xs)
  unfolding bubble_pass front carried
  pass_lem x [] s c = ground arith
  pass_lem x (y ∷ ys) s c = rw (pass_lem (lower x y) ys s (c + 1)) (ground arith)

  front-perm : (x : A) (xs : List A) → Perm (carried x xs ∷ front x xs) (x ∷ xs)
  unfolding front carried
  front-perm x [] = Perm.rfl
  front-perm x (y ∷ ys) = Perm.trans (Perm.swap (higher x y) _ _) (
      Perm.trans (Perm.cons (higher x y) (front-perm (lower x y) ys))
        (Perm.trans (Perm.swap _ _ ys) (exchange-perm x y ys)))

  length-front : (x : A) (xs : List A) → length (front x xs) ≡ length xs
  unfolding front
  length-front x [] = refl
  length-front x (y ∷ ys) = ap suc (length-front (lower x y) ys)

  Ge-lower : (x y : A) → Ge x (lower x y)
  Ge-lower x y = ground (arith, o.irrefl x)

  carried-lower : (x : A) (xs : List A) → Ge x (carried x xs)
  unfolding carried
  carried-lower x [] = Ge-refl x
  carried-lower x (y ∷ ys) = Ge-trans x (lower x y) _ (Ge-lower x y) (carried-lower (lower x y) ys)

  front-Ge : (x : A) (xs : List A) (a : A) → Mem a (front x xs) → Ge a (carried x xs)
  unfolding front carried
  front-Ge x [] = λ a m. absurd (not-mem-nil m)
  front-Ge x (y ∷ ys) =
      let last = carried (lower x y) ys in
      (forall_mem-cons (λ a. Ge-prop a last)).1 (
        Ge-trans (higher x y) (lower x y) last (higher-Ge x y).1 (carried-lower (lower x y) ys),
        front-Ge (lower x y) ys,
      )

  module _ (x : A) (xs s : List A) (d : IsDescending s) (over : Dominates (x ∷ xs) s) where
    front-Mem : (a : A) → Mem a (carried x xs ∷ front x xs) → Mem a (x ∷ xs)
    front-Mem a = (Perm.mem_iff (front-perm x xs)).0

    next-IsDescending : IsDescending (carried x xs ∷ s)
    next-IsDescending = Pairwise.cons (over _ (front-Mem _ mem-cons_self)) d

    next-Dominates : Dominates (front x xs) (carried x xs ∷ s)
    next-Dominates a m =
        IsAbove-cons a (carried x xs) s (front-Ge x xs a m)
          (over a (front-Mem a (mem-cons_of_mem _ m)))

    next-perm : Perm (front x xs ++ carried x xs ∷ s) ((x ∷ xs) ++ s)
    next-perm = Perm.trans (perm_middle (front x xs) s) (Perm.append_right s (front-perm x xs))

  round_lem :
      (n i : ℕ) (x : A) (xs s : List A) (c : ℕ)
      → length s ≡ i
      → bubble_rounds (suc n) i (x ∷ xs ++ s) c
        ≡ bubble_rounds n (i + 1) (front x xs ++ carried x xs ∷ s) (c + length xs)
  unfolding bubble_rounds
  round_lem n i x xs s c k =
      let left : suc (length (xs ++ s)) - i - 1 ≡ length xs = omega (arith, length-append xs s) in
      let pass : bubble_pass (suc (length (xs ++ s)) - i - 1) (x ∷ xs ++ s) c
          ≡ (front x xs ++ carried x xs ∷ s, c + length xs) =
        rw left (pass_lem x xs s c) in
      ap (λ r. bubble_rounds n (i + 1) r.0 r.1) pass

  -- The invariant: the last `i` elements are in order, and below all others.
  rounds_lem :
      (n i : ℕ) (p s : List A) (c : ℕ)
      → length p ≡ n
      → length s ≡ i
      → IsDescending s
      → Dominates p s
      → let r = bubble_rounds n i (p ++ s) c in
        IsSortOf (p ++ s) r.0 × (2 * r.1 + n ≡ 2 * c + n * n)
  unfolding bubble_rounds
  rounds_lem zero i [] s c h k d over = ((d, Perm.rfl), omega arith)
  rounds_lem zero i (x ∷ xs) s c h k d over = absurd (omega arith)
  rounds_lem (suc n) i [] s c h k d over = absurd (omega arith)
  rounds_lem (suc n) i (x ∷ xs) s c h k d over =
      let len = length-front x xs in
      let rest =
        rounds_lem n (i + 1) (front x xs) (carried x xs ∷ s) (c + length xs) (omega arith)
          (omega arith) (next-IsDescending x xs s d over) (next-Dominates x xs s d over) in
      rw (round_lem n i x xs s c k)
        ((rest.0.0, Perm.trans rest.0.1 (next-perm x xs s d over)), omega arith)

  rounds_all :
      (l : List A)
      → let r = bubble_rounds (length l) 0 l 0 in
        IsSortOf l r.0 × (2 * r.1 + length l ≡ length l * length l)
  rounds_all l =
      let all = rw append-nil at (
        rounds_lem (length l) 0 l [] 0 refl refl Pairwise.nil
          (λ a m b k. absurd (not-mem-nil k))) in
      (all.0, omega arith)

  -- `bubble_sort` returns a descending rearrangement of its input.
  pub bubble_sort-IsSortOf : (array : List A) → IsSortOf array (bubble_sort array).0
  unfolding bubble_sort
  bubble_sort-IsSortOf array = elim (Bool-cases (leb (length array) 1)) [
    | inl short ↦ rw short (IsDescending-short array (ground arith), Perm.rfl)
    | inr long ↦ rw long (rounds_all array).0
  ]
