-- ===== src/Algorithm/Sort/Merge.antt =====
-- `mergeSort` of algorithm/sort.hpp.
use mathlib.Core.List.{
  mem-cons_self, not-mem-nil, append-nil, append_assoc, mem-cons_of_mem, perm_middle,
  perm_append_comm, mem-append_left, Pairwise-append,
}
use mathlib.Core.List.Perm
use mathlib.Core.Bool.{Bool-set}
use mathlib.Core.Path.{ap₂}
use cpp_prac.Prelude.{
  ℕ, zero, suc, ◌+◌, ◌/◌, ◌≤◌, ◌<◌, ◌≡◌, refl, ap, sym, subst, ◌∙◌, true, false, inl, inr, List, [],
  ◌∷◌, ◌++◌, Mem, Perm, Pairwise, arith, leb, Bool-cases, length, take, drop, take-append-drop,
  length-take, length-drop,
}
use cpp_prac.Prelude.Order.{Order, lt, lt-asymm}
use native.Mathlib.Decide.{dec_le}
use cpp_prac.Algorithm.Descending.{
  IsDescending, IsAbove, Ge-prop, Dominates, IsSortOf, IsAbove-cons, IsAbove-append, IsAbove-trans,
  IsDescending-short,
}
use cpp_prac.Algorithm.Sort.{merge_inner, merge_outer, merge_parts, merge_calls, merge_sort}

module _ {ℓ} {A : Type ℓ} ⦃o : Order A⦄ where
  -- What the merge loops put out, and what they leave of the right half.
  weave : List A → List A → List A
  weave [] right = []
  weave (x ∷ left) [] = x ∷ weave left []
  weave (x ∷ left) (y ∷ right) = elim (lt x y) [
    | true ↦ y ∷ weave (x ∷ left) right
    | false ↦ x ∷ weave left (y ∷ right)
  ]

  lost : List A → List A → List A
  lost [] right = right
  lost (x ∷ left) [] = lost left []
  lost (x ∷ left) (y ∷ right) = elim (lt x y) [
    | true ↦ lost (x ∷ left) right
    | false ↦ lost left (y ∷ right)
  ]

  -- A round of the inner loop that takes from the right half, and one that takes from the left.
  module _ (x y : A) (left right : List A) where
    weave-right : lt x y ≡ true → weave (x ∷ left) (y ∷ right) ≡ y ∷ weave (x ∷ left) right
    unfolding weave
    weave-right h = rw (h, weave)

    weave-left : lt x y ≡ false → weave (x ∷ left) (y ∷ right) ≡ x ∷ weave left (y ∷ right)
    unfolding weave
    weave-left h = rw (h, weave)

    lost-right : lt x y ≡ true → lost (x ∷ left) (y ∷ right) ≡ lost (x ∷ left) right
    unfolding lost
    lost-right h = rw (h, lost)

    lost-left : lt x y ≡ false → lost (x ∷ left) (y ∷ right) ≡ lost left (y ∷ right)
    unfolding lost
    lost-left h = rw (h, lost)

    outer_right :
        (out : List A) (g : ℕ)
        → lt x y ≡ true
        → merge_outer (x ∷ left) (y ∷ right) out g
          ≡ merge_outer (x ∷ left) right (out ++ y ∷ []) (g + 1)
    unfolding merge_outer merge_inner
    outer_right out g h = ground arith

    outer_left :
        (out : List A) (g : ℕ)
        → lt x y ≡ false
        → merge_outer (x ∷ left) (y ∷ right) out g
          ≡ merge_outer left (y ∷ right) (out ++ x ∷ []) (g + 1)
    unfolding merge_outer merge_inner
    outer_left out g h = ground arith

  merge_outer_lem :
      (left right out : List A) (g : ℕ) → (merge_outer left right out g).0 ≡ out ++ weave left right
  unfolding merge_outer merge_inner weave
  merge_outer_lem [] right out g = sym (append-nil out)
  merge_outer_lem (x ∷ left) [] out g =
      merge_outer_lem left [] (out ++ x ∷ []) (g + 1) ∙ append_assoc out (x ∷ []) _
  merge_outer_lem (x ∷ left) (y ∷ right) out g = elim (Bool-cases (lt x y)) [
    | inl h ↦
        rw (outer_right x y left right out g h, weave-right x y left right h)
          (merge_outer_lem (x ∷ left) right (out ++ y ∷ []) (g + 1) ∙ append_assoc out (y ∷ []) _)
    | inr h ↦
        rw (outer_left x y left right out g h, weave-left x y left right h)
          (merge_outer_lem left (y ∷ right) (out ++ x ∷ []) (g + 1) ∙ append_assoc out (x ∷ []) _)
  ]

  weave-lost-perm :
      (left right : List A) → Perm (weave left right ++ lost left right) (left ++ right)
  unfolding weave lost
  weave-lost-perm [] right = Perm.rfl
  weave-lost-perm (x ∷ left) [] = Perm.cons x (weave-lost-perm left [])
  weave-lost-perm (x ∷ left) (y ∷ right) = elim (Bool-cases (lt x y)) [
    | inl h ↦
        rw (weave-right x y left right h, lost-right x y left right h)
          (Perm.trans (Perm.cons y (weave-lost-perm (x ∷ left) right))
            (Perm.symm (perm_middle (x ∷ left) right)))
    | inr h ↦
        rw (weave-left x y left right h, lost-left x y left right h)
          (Perm.cons x (weave-lost-perm left (y ∷ right)))
  ]

  weave-IsAbove :
      (a : A) (left right : List A)
      → IsAbove a left
      → IsAbove a right
      → IsAbove a (weave left right)
  weave-IsAbove a left right hl hr x m =
      IsAbove-append a left right hl hr x
        ((Perm.mem_iff (weave-lost-perm left right)).0 (mem-append_left _ m))

  weave-IsDescending :
      (left right : List A)
      → IsDescending left
      → IsDescending right
      → IsDescending (weave left right)
  unfolding weave
  weave-IsDescending [] right dl dr = Pairwise.nil
  weave-IsDescending (x ∷ left) [] (Pairwise.cons below dl) dr =
      Pairwise.cons (weave-IsAbove x left [] below (λ a m. absurd (not-mem-nil m)))
        (weave-IsDescending left [] dl dr)
  weave-IsDescending (x ∷ left) (y ∷ right) (Pairwise.cons below_x dl) (Pairwise.cons below_y dr) =
      elim (Bool-cases (lt x y)) [
        | inl h ↦
            let up = lt-asymm x y h in
            rw (weave-right x y left right h) (
              Pairwise.cons
                (weave-IsAbove y (x ∷ left) right
                  (IsAbove-cons y x left up (IsAbove-trans y x left up below_x)) below_y)
                (weave-IsDescending (x ∷ left) right (Pairwise.cons below_x dl) dr))
        | inr h ↦ rw (weave-left x y left right h) (
            Pairwise.cons
              (weave-IsAbove x left (y ∷ right) below_x
                (IsAbove-cons x y right h (IsAbove-trans x y right h below_y)))
              (weave-IsDescending left (y ∷ right) dl (Pairwise.cons below_y dr)))
      ]

  merge_calls_short : (fuel : ℕ) (l : List A) (g : ℕ) → length l ≤ 1 → merge_calls fuel l g ≡ (l, g)
  unfolding merge_calls
  merge_calls_short zero l g h = refl
  merge_calls_short (suc fuel) l g h =
      let short : leb (length l) 1 ≡ true = ground arith in rw short

  -- The recursive case: the halves are sorted and merged, whatever the counters.
  merge_calls_long :
      (fuel : ℕ) (l : List A) (g : ℕ)
      → 2 ≤ length l
      → let mid = length l / 2 in
        (h k : ℕ) × ((merge_calls (suc fuel) l g).0
          ≡ weave (merge_calls fuel (take mid l) h).0 (merge_calls fuel (drop mid l) k).0)
  unfolding merge_calls merge_parts
  merge_calls_long fuel l g h =
      let long : leb (length l) 1 ≡ false = ground arith in
      let mid = length l / 2 in
      let c = g + length (take mid l) + length (drop mid l) in
      (c, (merge_calls fuel (take mid l) c).1, rw long (merge_outer_lem _ _ [] _))

  -- The result is in order, and is a rearrangement of a part of the input.
  abbrev pub IsPartOf : List A → List A → Type ℓ
  IsPartOf l r = (rest : List A) × Perm (r ++ rest) l

  shuffle-perm : (a b c d : List A) → Perm ((a ++ b) ++ (c ++ d)) ((a ++ c) ++ (b ++ d))
  shuffle-perm a b c d =
      rw (append_assoc a b (c ++ d), append_assoc a c (b ++ d))
        (Perm.append_left a (
          subst (λ k. Perm (b ++ (c ++ d)) k) (append_assoc c b d)
            (subst (λ k. Perm k ((c ++ b) ++ d)) (append_assoc b c d)
              (Perm.append_right d (perm_append_comm b c)))))

  weave-IsPartOf :
      (l r wl wr : List A) → IsPartOf l wl → IsPartOf r wr → IsPartOf (l ++ r) (weave wl wr)
  weave-IsPartOf l r wl wr (rest_l, pl) (rest_r, pr) = (
    lost wl wr ++ (rest_l ++ rest_r),
    subst (λ k. Perm k (l ++ r)) (append_assoc (weave wl wr) (lost wl wr) (rest_l ++ rest_r))
        (Perm.trans (Perm.append_right (rest_l ++ rest_r) (weave-lost-perm wl wr))
          (Perm.trans (shuffle-perm wl wr rest_l rest_r) (Perm.append pl pr))),
  )

  IsPartOf-refl : (l : List A) → IsPartOf l l
  IsPartOf-refl l = ([], rw (append-nil l) Perm.rfl)

  -- A proof of the recursive case from the two halves and their merge.
  by_halves {κ} :
      (P : List A → List A → Type κ)
      → ((l : List A) → length l ≤ 1 → P l l)
      → ((l r wl wr : List A) → 0 < length l → P l wl → P r wr → P (l ++ r) (weave wl wr))
      → (fuel : ℕ) (l : List A) (g : ℕ) → length l ≤ fuel
      → P l (merge_calls fuel l g).0
  by_halves P short merged zero l g h =
      rw (merge_calls_short zero l g (omega arith)) (short l (omega arith))
  by_halves P short merged (suc fuel) l g h = elim (dec_le (length l) 1) [
    | yes few ↦ rw (merge_calls_short (suc fuel) l g few) (short l few)
    | no many ↦
        let mid = length l / 2 in
        let (c, d, e) = merge_calls_long fuel l g (omega arith) in
        let left =
          by_halves P short merged fuel (take mid l) c (omega (arith, length-take mid l)) in
        let right =
          by_halves P short merged fuel (drop mid l) d (omega (arith, length-drop mid l)) in
        let wl = (merge_calls fuel (take mid l) c).0 in
        let wr = (merge_calls fuel (drop mid l) d).0 in
        let whole =
          merged (take mid l) (drop mid l) wl wr (omega (arith, length-take mid l)) left right in
        rw e (subst (λ k. P k (weave wl wr)) (take-append-drop mid l) whole)
  ]

  -- `merge_sort` returns a descending rearrangement of some of the elements of its input.
  pub merge_sort-IsPartOf :
      (array : List A) (g : ℕ)
      → IsDescending (merge_sort array g).0 × IsPartOf array (merge_sort array g).0
  unfolding merge_sort
  merge_sort-IsPartOf array g =
      by_halves (λ l r. IsDescending r × IsPartOf l r)
        (λ l h. (IsDescending-short l h, IsPartOf-refl l))
        (λ l r wl wr _ hl hr.
          (weave-IsDescending wl wr hl.0 hr.0, weave-IsPartOf l r wl wr hl.1 hr.1))
        (length array) array g (omega arith)

  weave_top : (x : A) (l r : List A) → Dominates (x ∷ l) r → weave (x ∷ []) (take 1 r) ≡ x ∷ []
  unfolding weave
  weave_top x l [] h = refl
  weave_top x l (y ∷ r) h = weave-left x y [] [] (h x mem-cons_self y mem-cons_self)

  heads_lem :
      (l r : List A) → 0 < length l → Dominates l r → weave (take 1 l) (take 1 r) ≡ take 1 (l ++ r)
  heads_lem [] r h over = absurd (omega arith)
  heads_lem (x ∷ l) r h over = weave_top x l r over

  take_one_short : (l : List A) → length l ≤ 1 → l ≡ take 1 l
  take_one_short [] h = refl
  take_one_short (x ∷ []) h = refl
  take_one_short (x ∷ y ∷ l) h = absurd (omega arith)

  -- Of an array that is in order already, `merge_sort` returns the first element and loses all
  -- others: what the loops leave of the right half is never copied.
  pub merge_sort-loses :
      (array : List A) (g : ℕ) → IsDescending array → (merge_sort array g).0 ≡ take 1 array
  unfolding merge_sort
  merge_sort-loses array g d =
      by_halves (λ l r. IsDescending l → r ≡ take 1 l) (λ l h _. take_one_short l h)
        (λ l r wl wr h hl hr d'.
          let (dl, dr, over) = (Pairwise-append Ge-prop).0 d' in
          ap₂ weave (hl dl) (hr dr) ∙ heads_lem l r h (λ a m. over a m))
        (length array) array g (omega arith) d

  weave-nil : (l : List A) → weave l [] ≡ l
  unfolding weave
  weave-nil [] = refl
  weave-nil (x ∷ l) = ap (◌∷◌ x) (weave-nil l)

  weave_over :
      (x : A) (l r : List A) → ((y : A) → Mem y r → lt x y ≡ true) → weave (x ∷ l) r ≡ r ++ x ∷ l
  weave_over x l [] over = weave-nil (x ∷ l)
  weave_over x l (y ∷ r) over =
      weave-right x y l r (over y mem-cons_self)
      ∙ ap (◌∷◌ y) (weave_over x l r (λ z m. over z (mem-cons_of_mem y m)))

  abbrev pub IsAscending : List A → Type ℓ
  IsAscending = Pairwise (λ a b. lt a b ≡ true)

  weave_ascending :
      (l r wl wr : List A)
      → 0 < length l
      → ((a : A) → Mem a l → (b : A) → Mem b r → lt a b ≡ true)
      → Perm wl l
      → Perm wr r
      → Perm (weave wl wr) (l ++ r)
  weave_ascending l r [] wr h over pl pr =
      let none_left : length l ≡ 0 = ap length (sym (Perm.nil-eq pl)) in absurd (omega arith)
  weave_ascending l r (x ∷ wl) wr h over pl pr =
      let top =
        weave_over x wl wr
          (λ y m. over x ((Perm.mem_iff pl).0 mem-cons_self) y ((Perm.mem_iff pr).0 m)) in
      rw top (Perm.trans (perm_append_comm wr (x ∷ wl)) (Perm.append pl pr))

  -- On an array in strictly ascending order `merge_sort` returns a descending rearrangement of all
  -- elements.
  merge_sort-IsSortOf_ascending :
      (array : List A) (g : ℕ) → IsAscending array → IsSortOf array (merge_sort array g).0
  unfolding merge_sort
  merge_sort-IsSortOf_ascending array g up = (
    (merge_sort-IsPartOf array g).0,
    by_halves (λ l r. IsAscending l → Perm r l) (λ l h _. Perm.rfl)
        (λ l r wl wr h hl hr up'.
          let (ul, ur, over) = (Pairwise-append (λ a b. Bool-set (lt a b) true)).0 up' in
          weave_ascending l r wl wr h over (hl ul) (hr ur))
        (length array) array g (omega arith) up,
  )
