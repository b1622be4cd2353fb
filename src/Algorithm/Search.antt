-- ===== src/Algorithm/Search.antt =====
-- algorithm/search.hpp: `simpleSearch` and `binarySearch` over an array of ints. The elements are
-- any type with the comparisons of int, and standard output is left out.
mod Examples
pub mod Simple
pub mod Binary
use cpp_prac.Prelude.{
  ℕ, zero, suc, ◌+◌, ◌-◌, ◌/◌, ◌%◌, ◌^◌, ◌==◌, Option, none, some, List, [], ◌∷◌, leb, ltb,
  if◌then◌else◌, length, get_elem?,
}
use cpp_prac.Prelude.Int.{ℤ, pos, negsuc}
use cpp_prac.Prelude.Order.{Order, lt, gt, eq}

-- `unique_ptr<int>`, or the end of the run by a read past the end of the array, or by the end of
-- the fuel.
pub data Answer : Type 0 where
  found : ℤ → Answer
  absent : Answer
  out_of_bounds : Answer
  out_of_fuel : Answer

-- size_t has 64 bits.
abbrev pub size_mod : ℕ
size_mod = 2 ^ 64

-- `mid = (high+low)/2`
pub midpoint : ℕ → ℕ → ℕ
midpoint low high = (high + low) % size_mod / 2

-- The int that a size_t is narrowed to.
pub to_int : ℕ → ℤ
to_int n = let w = n % 2 ^ 32 in if ltb w (2 ^ 31) then pos w else negsuc (2 ^ 32 - w - 1)

-- `mid - 1`, which wraps at 0.
pub before : ℕ → ℕ
before mid = (mid + size_mod - 1) % size_mod

module _ {ℓ} {A : Type ℓ} ⦃o : Order A⦄ where
  -- The `while`: the list is what the iterator has not passed.
  scan : List A → A → ℕ → Option ℕ
  scan [] target counter = none
  scan (x ∷ xs) target counter = if eq x target then some counter else scan xs target (counter + 1)

  unfoldable pub simple_search : List A → A → Option ℕ
  unfolding scan
  simple_search array target = scan array target 0

  -- The `while (low <= high)`, one unit of fuel to a round.
  pub binary_loop : ℕ → List A → A → ℕ → ℕ → Answer
  binary_loop zero array target low high = out_of_fuel
  binary_loop (suc fuel) array target low high =
      let mid = midpoint low high in
      let left = binary_loop fuel array target low (before mid) in
      let right = binary_loop fuel array target ((mid + 1) % size_mod) high in
      let again = binary_loop fuel array target low high in
      if leb low high
      then elim (get_elem? array mid) [
        | none ↦ out_of_bounds
        | some v ↦
            if eq target v
            then found (to_int mid)
            else if gt target v
            then left
            else if lt target v
            then right
            else again
      ]
      else absent

  unfoldable pub binary_search : List A → A → Answer
  unfolding binary_loop midpoint before to_int
  binary_search array target =
      if length array == 0
      then absent
      else binary_loop (length array + 2) array target 0 (length array - 1)
