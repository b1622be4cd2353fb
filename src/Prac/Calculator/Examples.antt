-- ===== src/Prac/Calculator/Examples.antt =====
-- Runs of prac/cal.cpp, and the theorems about it at inputs. The values are kept as formulas, so
-- that they show how the operations group.
use cpp_prac.Prelude.{ℕ, ◌≡◌, refl, [], ◌∷◌, ◌++◌, ◌≤◌, true, false, some, none, arith}
use cpp_prac.Prac.Calculator.{
  Double, Calculator, returned, undefined, success, unknow_symbol, unknow, is_space, elem_type,
  stoi, int_max, eval,
}
use cpp_prac.Prac.Calculator.Grammar.{
  are_digits, Literal, Expr, term, sum, Term, factor, product, literal, parens, minus_sign,
  over_dot, text_expr, number_of,
}
use cpp_prac.Prac.Calculator.Values.{eval-text}
use cpp_prac.Prac.Calculator.Reuse.{eval-unknow_keeps}

data Formula : Type 0 where
  int : ℕ → Formula
  op : ℕ → Formula → Formula → Formula

instance abbrev formulas : Double Formula
formulas = record { of_int = int; plus = op 43; minus = op 45; times = op 42; over = op 47 }

-- 8, 4, 2, and 84.
eight_digits : (are_digits (56 ∷ []) ≡ true) × (stoi 0 (56 ∷ []) ≤ int_max)
unfolding are_digits stoi
eight_digits = (refl, omega arith)

abbrev eight : Literal
eight = record {
  digits = 56 ∷ [];
  some_digit = omega arith;
  room = omega arith;
  only_digits = eight_digits.0;
  fits = eight_digits.1;
}

four_digits : (are_digits (52 ∷ []) ≡ true) × (stoi 0 (52 ∷ []) ≤ int_max)
unfolding are_digits stoi
four_digits = (refl, omega arith)

abbrev four : Literal
four = record {
  digits = 52 ∷ [];
  some_digit = omega arith;
  room = omega arith;
  only_digits = four_digits.0;
  fits = four_digits.1;
}

two_digits : (are_digits (50 ∷ []) ≡ true) × (stoi 0 (50 ∷ []) ≤ int_max)
unfolding are_digits stoi
two_digits = (refl, omega arith)

abbrev two : Literal
two = record {
  digits = 50 ∷ [];
  some_digit = omega arith;
  room = omega arith;
  only_digits = two_digits.0;
  fits = two_digits.1;
}

eighty_four_digits : (are_digits (56 ∷ 52 ∷ []) ≡ true) × (stoi 0 (56 ∷ 52 ∷ []) ≤ int_max)
unfolding are_digits stoi
eighty_four_digits = (refl, omega arith)

abbrev eighty_four : Literal
eighty_four = record {
  digits = 56 ∷ 52 ∷ [];
  some_digit = omega arith;
  room = omega arith;
  only_digits = eighty_four_digits.0;
  fits = eighty_four_digits.1;
}

-- 8/4/2, and 2-8-(8/4/2).
abbrev quotients : Term
quotients =
    product (literal eight) over_dot (product (literal four) over_dot (factor (literal two)))

abbrev differences : Expr
differences =
    sum (sum (term (factor (literal two))) minus_sign (factor (literal eight))) minus_sign
      (factor (parens (term quotients)))

abbrev empty_calculator : Calculator Formula
empty_calculator = record { elem_stack = []; number_buf = [] }

eval-text_example : eval empty_calculator (text_expr differences) ≡ elim (number_of differences) [
  | some l ↦ returned empty_calculator (success (int (stoi 0 l.digits)))
  | none ↦ undefined
]
eval-text_example = eval-text differences

-- 8a, and then 4.
no_space : is_space 97 ≡ false
unfolding is_space
no_space = refl

no_elem : elem_type 97 ≡ unknow
unfolding elem_type
no_elem = refl

eval-unknow_keeps_example :
    (eval empty_calculator (eight.digits ++ 97 ∷ [])
      ≡ returned (record empty_calculator { number_buf = eight.digits }) (unknow_symbol 97))
    × (eval (record empty_calculator { number_buf = eight.digits }) four.digits
        ≡ returned empty_calculator (success (int (stoi 0 eighty_four.digits))))
eval-unknow_keeps_example = eval-unknow_keeps eight four eighty_four 97 [] no_space no_elem refl
