-- ===== src/Algorithm/Sort.antt =====
-- algorithm/sort.hpp: four sorts into descending order. The elements are any type with the
-- comparisons of int. An index that only moves forward through a vector is the list that is left,
-- and `push_back` adds at the end. The counters are kept; they are printed by `selectSort` and
-- `bubbleSort`, and `g_counter` of the other two is passed from call to call. They are numbers here:
-- the int counters of `selectSort` and `bubbleSort` overflow above about 65536 elements, which does not
-- touch the array.
mod Examples
pub mod Select
pub mod Bubble
pub mod Quick
pub mod Merge
use cpp_prac.Prelude.{
  ℕ, zero, suc, ◌+◌, ◌-◌, ◌/◌, Bool, true, false, List, [], ◌∷◌, ◌++◌, leb, if◌then◌else◌, length,
  take, drop,
}
use cpp_prac.Prelude.Order.{Order, lt, gt}

module _ {ℓ} {A : Type ℓ} ⦃o : Order A⦄ where
  -- The loop over j of `selectSort`: `x` is result[i], the list result[j] and on. The results are
  -- the new result[i], the new list and the counter.
  select_pass : A → List A → ℕ → A × List A × ℕ
  select_pass x [] counter = (x, [], counter)
  select_pass x (y ∷ ys) counter =
      let (m, rest, n) = select_pass (if lt x y then y else x) ys (counter + 1) in
      (m, (if lt x y then x else y) ∷ rest, n)

  -- The loop over i, by the number of rounds left: the list is result[i] and on.
  select_rounds : ℕ → List A → ℕ → List A × ℕ
  select_rounds (suc n) (x ∷ xs) counter =
      let (m, rest, c) = select_pass x xs counter in
      let (sorted, d) = select_rounds n rest c in (m ∷ sorted, d)
  select_rounds _ l counter = (l, counter)

  -- The result and the count that is printed.
  unfoldable pub select_sort : List A → List A × ℕ
  unfolding select_pass select_rounds
  select_sort array =
      if leb (length array) 1 then (array, 1) else select_rounds (length array) array 0

  -- The loop over j of `bubbleSort`, by the number of rounds left.
  bubble_pass : ℕ → List A → ℕ → List A × ℕ
  bubble_pass (suc k) (x ∷ y ∷ ys) counter =
      let (rest, n) = bubble_pass k ((if lt x y then x else y) ∷ ys) (counter + 1) in
      ((if lt x y then y else x) ∷ rest, n)
  bubble_pass _ l counter = (l, counter)

  -- The loop over i, by the number of rounds left.
  bubble_rounds : ℕ → ℕ → List A → ℕ → List A × ℕ
  bubble_rounds zero i l counter = (l, counter)
  bubble_rounds (suc n) i l counter =
      let (l', c) = bubble_pass (length l - i - 1) l counter in bubble_rounds n (i + 1) l' c

  unfoldable pub bubble_sort : List A → List A × ℕ
  unfolding bubble_pass bubble_rounds
  bubble_sort array =
      if leb (length array) 1 then (array, 1) else bubble_rounds (length array) 0 array 0

  -- A loop of `quickSort` that deals its elements to `low` and `high`.
  deal : A → List A → List A → List A → ℕ → List A × List A × ℕ
  deal pivot [] low high g = (low, high, g)
  deal pivot (x ∷ xs) low high g =
      deal pivot xs (if lt x pivot then low ++ x ∷ [] else low)
        (if lt x pivot then high else high ++ x ∷ []) (g + 1)

  -- The elements before the pivot's place, the pivot, the elements behind it.
  quick_parts : (List A → ℕ → List A × ℕ) → List A → List A → ℕ → List A × ℕ
  quick_parts sort before [] g = (before, g)
  quick_parts sort before (pivot ∷ behind) g =
      let (low, high, g) = deal pivot before [] [] g in
      let (low, high, g) = deal pivot behind low high g in
      let (r_h, g) = sort high g in let (r_l, g) = sort low g in (r_h ++ pivot ∷ r_l, g)

  -- `quickSort`, with fuel for the depth of its calls.
  quick_calls : ℕ → List A → ℕ → List A × ℕ
  quick_calls zero array g = (array, g)
  quick_calls (suc fuel) array g =
      let mid = length array / 2 in
      if leb (length array) 1
      then (array, g)
      else quick_parts (quick_calls fuel) (take mid array) (drop mid array) g

  -- The depth is at most the number of elements.
  unfoldable pub quick_sort : List A → ℕ → List A × ℕ
  unfolding deal quick_parts quick_calls
  quick_sort array g = quick_calls (length array) array g

  -- The loop over j of `mergeSort` for one element `x` of the left half: the list is what is left
  -- of the right half, and `true` says that the loop broke off.
  merge_inner : A → List A → List A → ℕ → List A × List A × Bool × ℕ
  merge_inner x [] out g = (out, [], false, g)
  merge_inner x (y ∷ right) out g =
      if gt y x
      then merge_inner x right (out ++ y ∷ []) (g + 1)
      else (out ++ x ∷ [], y ∷ right, true, g + 1)

  -- The loop over i. What is left of the right half at its end is not looked at again.
  merge_outer : List A → List A → List A → ℕ → List A × ℕ
  merge_outer [] right out g = (out, g)
  merge_outer (x ∷ left) right out g =
      let (out, rest, is_break, g) = merge_inner x right out g in
      merge_outer left (if is_break then rest else []) (if is_break then out else out ++ x ∷ [])
        (if is_break then g else g + 1)

  -- The loops that copy the halves: one step of the counter for each element.
  merge_parts : (List A → ℕ → List A × ℕ) → List A → List A → ℕ → List A × ℕ
  merge_parts sort left right g =
      let (left', g) = sort left (g + length left + length right) in
      let (right', g) = sort right g in merge_outer left' right' [] g

  merge_calls : ℕ → List A → ℕ → List A × ℕ
  merge_calls zero array g = (array, g)
  merge_calls (suc fuel) array g =
      let mid = length array / 2 in
      if leb (length array) 1
      then (array, g)
      else merge_parts (merge_calls fuel) (take mid array) (drop mid array) g

  unfoldable pub merge_sort : List A → ℕ → List A × ℕ
  unfolding merge_inner merge_outer merge_parts merge_calls
  merge_sort array g = merge_calls (length array) array g
