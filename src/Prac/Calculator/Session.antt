-- ===== src/Prac/Calculator/Session.antt =====
-- prac/cal.cpp: the `main` of the calculator, on the words that the input has.
use cpp_prac.Prelude.{ℕ, Bool, true, false, ◌&&◌, ◌==◌, List, [], ◌∷◌}
use cpp_prac.Prac.Calculator.{
  Double, Calculator, CalResult, unknow_symbol, Failure, error_expr, missing_parenth, unknow_opt,
  out_of_range, Outcome, returned, thrown, undefined, eval,
}

-- A line that is printed: a result, or the text of an exception.
pub data Printed (A : Type 0) : Type 0 where
  result_line : CalResult A → Printed A
  error_line : Failure → Printed A

-- `main` returns, is ended by an exception that it does not catch, or has no defined behaviour.
pub data Exit : Type 0 where
  returns uncaught broken : Exit

-- "exit"
abbrev pub is_exit : List ℕ → Bool
is_exit (a ∷ b ∷ c ∷ d ∷ []) = (a == 101) && ((b == 120) && ((c == 105) && (d == 116)))
is_exit word = false

-- The exception of `stoi` is no runtime_error.
abbrev pub is_runtime_error : Failure → Bool
is_runtime_error (error_expr t) = true
is_runtime_error missing_parenth = true
is_runtime_error unknow_opt = true
is_runtime_error out_of_range = false

result_of : (A : Type 0) → Outcome A (CalResult A) → CalResult A
result_of A (returned cal r) = r
result_of A (thrown cal f) = unknow_symbol 0
result_of A undefined = unknow_symbol 0

module _ {A : Type 0} ⦃d : Double A⦄ where
  unfoldable pub main_loop : Calculator A → List (List ℕ) → List (Printed A) × Exit
  main_loop cal [] = ([], returns)
  main_loop cal (line ∷ lines) = elim (is_exit line) [
    | true ↦ ([], returns)
    | false ↦ elim (eval cal line) [
      | returned cal' r ↦ let (printed, e) = main_loop cal' lines in (result_line r ∷ printed, e)
      | thrown cal' f ↦ elim (is_runtime_error f) [
        | true ↦ let (printed, e) = main_loop cal' lines in (error_line f ∷ printed, e)
        | false ↦ ([], uncaught)
      ]
      | undefined ↦ ([], broken)
    ]
  ]
