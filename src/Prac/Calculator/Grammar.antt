-- ===== src/Prac/Calculator/Grammar.antt =====
-- The expressions that prac/cal.cpp is for, and their text.
use cpp_prac.Prelude.{
  ℕ, ◌≤◌, ◌<◌, Bool, true, ◌&&◌, Option, none, some, List, [], ◌∷◌, ◌++◌, ◌≡◌, leb, length, arith,
}
use cpp_prac.Prac.Calculator.{stoi, buffer_size, int_max}

unfoldable pub are_digits : List ℕ → Bool
are_digits [] = true
are_digits (c ∷ cs) = leb 48 c && leb c 57 && are_digits cs

-- A number with room in the buffer that is an int.
pub record Literal : Type 0 where
  pub digits : List ℕ
  pub some_digit : 1 ≤ length digits
  pub room : length digits < buffer_size
  pub only_digits : are_digits digits ≡ true
  pub fits : stoi 0 digits ≤ int_max

pub data Sign : Type 0 where
  plus_sign minus_sign : Sign

pub data Dot : Type 0 where
  times_dot over_dot : Dot

mutual
  pub data Expr : Type 0 where
    term : Term → Expr
    sum : Expr → Sign → Term → Expr

  pub data Term : Type 0 where
    factor : Factor → Term
    product : Factor → Dot → Term → Term

  pub data Factor : Type 0 where
    literal : Literal → Factor
    parens : Expr → Factor

abbrev pub sign_char : Sign → ℕ
sign_char plus_sign = 43
sign_char minus_sign = 45

abbrev pub dot_char : Dot → ℕ
dot_char times_dot = 42
dot_char over_dot = 47

unfoldable mutual
  pub text_expr : Expr → List ℕ
  text_expr (term t) = text_term t
  text_expr (sum e s t) = text_expr e ++ sign_char s ∷ text_term t

  pub text_term : Term → List ℕ
  text_term (factor f) = text_factor f
  text_term (product f o t) = text_factor f ++ dot_char o ∷ text_term t

  pub text_factor : Factor → List ℕ
  text_factor (literal l) = l.digits
  text_factor (parens e) = 40 ∷ text_expr e ++ 41 ∷ []

-- The number that an expression is, when it has no sign and no parenthesis.
abbrev pub number_of : Expr → Option Literal
number_of (term (factor (literal l))) = some l
number_of (term (factor (parens e))) = none
number_of (term (product f o t)) = none
number_of (sum e o t) = none

-- At least how many elements an expression leaves.
abbrev pub size_factor : Factor → ℕ
size_factor (literal l) = 1
size_factor (parens e) = 3

abbrev pub size_term : Term → ℕ
size_term (factor f) = size_factor f
size_term (product f o t) = 3

abbrev pub size_expr : Expr → ℕ
size_expr (term t) = size_term t
size_expr (sum e o t) = 3

pub some_factor : (f : Factor) → 1 ≤ size_factor f
some_factor (literal l) = omega arith
some_factor (parens e) = omega arith

pub some_term : (t : Term) → 1 ≤ size_term t
some_term (factor f) = some_factor f
some_term (product f o t) = omega arith

pub some_expr : (e : Expr) → 1 ≤ size_expr e
some_expr (term t) = some_term t
some_expr (sum e o t) = omega arith
