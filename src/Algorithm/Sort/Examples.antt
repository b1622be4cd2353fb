-- ===== src/Algorithm/Sort/Examples.antt =====
-- The sorts of algorithm/sort.hpp on arrays of ints, and the theorems about them at inputs.

use cpp_prac.Prelude.{◌≡◌, refl, List, [], ◌∷◌, take}
use cpp_prac.Prelude.Int.{ℤ, pos, negsuc, int_order}
use cpp_prac.Algorithm.Descending.{IsDescending, IsSortOf, is_pairwise_sound, IsDescending-of_test}
use cpp_prac.Prelude.Order.{lt}
use cpp_prac.Algorithm.Sort.{select_sort, bubble_sort, quick_sort, merge_sort}
use cpp_prac.Algorithm.Sort.Select.{select_sort-IsSortOf}
use cpp_prac.Algorithm.Sort.Bubble.{bubble_sort-IsSortOf}
use cpp_prac.Algorithm.Sort.Quick.{quick_sort-IsSortOf}
use cpp_prac.Algorithm.Sort.Merge.{IsPartOf, IsAscending, merge_sort-IsPartOf, merge_sort-loses}

abbrev mixed : List ℤ
mixed = pos 4 ∷ negsuc 2 ∷ pos 9 ∷ pos 4 ∷ []

abbrev falling : List ℤ
falling = pos 9 ∷ pos 4 ∷ pos 4 ∷ negsuc 2 ∷ []

abbrev rising : List ℤ
rising = negsuc 2 ∷ pos 4 ∷ pos 9 ∷ []

select_sort_runs : select_sort mixed ≡ (falling, 6)
unfolding select_sort
select_sort_runs = refl

bubble_sort_runs : bubble_sort mixed ≡ (falling, 6)
unfolding bubble_sort
bubble_sort_runs = refl

quick_sort_runs : (quick_sort mixed 0).0 ≡ falling
unfolding quick_sort
quick_sort_runs = refl

merge_sort_runs : (merge_sort mixed 0).0 ≡ pos 9 ∷ pos 4 ∷ []
unfolding merge_sort
merge_sort_runs = refl

select_sort-IsSortOf_example : IsSortOf mixed (select_sort mixed).0
select_sort-IsSortOf_example = select_sort-IsSortOf mixed

bubble_sort-IsSortOf_example : IsSortOf mixed (bubble_sort mixed).0
bubble_sort-IsSortOf_example = bubble_sort-IsSortOf mixed

quick_sort-IsSortOf_example : IsSortOf mixed (quick_sort mixed 5).0
quick_sort-IsSortOf_example = quick_sort-IsSortOf mixed 5

merge_sort-IsPartOf_example :
    IsDescending (merge_sort mixed 0).0 × IsPartOf mixed (merge_sort mixed 0).0
merge_sort-IsPartOf_example = merge_sort-IsPartOf mixed 0

merge_sort-loses_example : (merge_sort falling 0).0 ≡ take 1 falling
merge_sort-loses_example = merge_sort-loses falling 0 (IsDescending-of_test falling refl)

rising-IsAscending : IsAscending rising
rising-IsAscending = is_pairwise_sound lt rising refl
