-- ===== src/Algorithm/Search/Examples.antt =====
-- The searches of algorithm/search.hpp on arrays of ints, and the theorems about them at inputs.
use cpp_prac.Prelude.{ℕ, zero, suc, ◌≡◌, refl, some, List, [], ◌∷◌, arith, get_elem?, true}
use cpp_prac.Prelude.Int.{ℤ, pos, negsuc, int_order}
use cpp_prac.Prelude.Order.{lt}
use cpp_prac.Algorithm.Descending.{IsDescending, IsDescending-of_test}
use cpp_prac.Algorithm.Search.{found, absent, out_of_bounds, simple_search, binary_search}
use cpp_prac.Algorithm.Search.Binary.{IsAnswer, binary_search-IsAnswer, binary_search-overruns}

abbrev falling : List ℤ
falling = pos 9 ∷ pos 4 ∷ pos 4 ∷ negsuc 2 ∷ []

falling-IsDescending : IsDescending falling
falling-IsDescending = IsDescending-of_test falling refl

binary_search_hit : binary_search falling (negsuc 2) ≡ found (pos 3)
unfolding binary_search
binary_search_hit = refl

binary_search_miss : binary_search falling (pos 5) ≡ absent
unfolding binary_search
binary_search_miss = refl

binary_search_over : binary_search falling (pos 10) ≡ out_of_bounds
unfolding binary_search
binary_search_over = refl

simple_search_hit : simple_search falling (pos 4) ≡ some 1
unfolding simple_search
simple_search_hit = refl

binary_search-IsAnswer_example : IsAnswer falling (pos 5) (binary_search falling (pos 5))
binary_search-IsAnswer_example =
    binary_search-IsAnswer falling (pos 5) falling-IsDescending (omega arith) (λ b e. ground arith)

all_below_ten : (j : ℕ) (b : ℤ) → get_elem? falling j ≡ some b → lt b (pos 10) ≡ true
all_below_ten zero b e = ground arith
all_below_ten (suc zero) b e = ground arith
all_below_ten (suc (suc zero)) b e = ground arith
all_below_ten (suc (suc (suc zero))) b e = ground arith
all_below_ten (suc (suc (suc (suc j)))) b e = ground arith

binary_search-overruns_example : binary_search falling (pos 10) ≡ out_of_bounds
binary_search-overruns_example =
    binary_search-overruns falling (pos 10) (omega arith) (omega arith) all_below_ten
