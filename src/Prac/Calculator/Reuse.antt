-- ===== src/Prac/Calculator/Reuse.antt =====
-- What a failed `eval` of prac/cal.cpp leaves to the next one on the same calculator.
use cpp_prac.Prelude.{
  ℕ, ◌+◌, ◌<◌, false, some, List, [], ◌∷◌, ◌++◌, ◌≡◌, ap, subst, length, length-append, arith,
}
use cpp_prac.Prac.Calculator.{
  Double, Elem, Calculator, returned, success, unknow_symbol, unknow, is_space, stoi, elem_type,
  parse_elem, value_elem, eval_number, eval_stack, clear_stack, result, eval_elem, eval_elems, eval,
  buffer_size,
}
use cpp_prac.Prac.Calculator.Grammar.{Literal}
use cpp_prac.Prac.Calculator.Reading.{
  state, eval_elems-append, eval_elems-digits, eval_number-literal,
}

joined_room :
    (l m both : Literal)
    → both.digits ≡ l.digits ++ m.digits
    → length l.digits + length m.digits < buffer_size
joined_room l m both joined =
    omega (arith, both.room, length-append l.digits m.digits, ap length joined)

module _ {A : Type 0} ⦃d : Double A⦄ where
  abbrev start : List ℕ → Calculator A
  start buf = state [] buf

  elem-unknow :
      (s : List (Elem A)) (buf : List ℕ) (c : ℕ)
      → elem_type c ≡ unknow
      → eval_elem (state s buf) c ≡ returned (state [] buf) (some (unknow_symbol c))
  unfolding eval_elem parse_elem clear_stack
  elem-unknow s buf c h = ground arith

  elems-unknow :
      (s : List (Elem A)) (buf : List ℕ) (c : ℕ) (cs : List ℕ)
      → is_space c ≡ false
      → elem_type c ≡ unknow
      → eval_elems (state s buf) (c ∷ cs) ≡ returned (state [] buf) (some (unknow_symbol c))
  unfolding eval_elems
  elems-unknow s buf c cs no_space h = simp (no_space, elem-unknow s buf c h)

  eval_number-joined :
      (l m both : Literal)
      → both.digits ≡ l.digits ++ m.digits
      → eval_number (start (l.digits ++ m.digits))
        ≡ returned (state (value_elem (d.of_int (stoi 0 both.digits)) ∷ []) []) tt
  eval_number-joined l m both joined =
      subst
        (λ b.
          eval_number (start b)
          ≡ returned (state (value_elem (d.of_int (stoi 0 both.digits)) ∷ []) []) tt)
        joined (eval_number-literal both [])

  -- A text whose digits are followed by a symbol that is not known fails and keeps the digits in the
  -- buffer, so that the next text, of digits alone, has the value of both written together, if
  -- that is a number that the buffer and an int hold.
  pub eval-unknow_keeps :
      (l m both : Literal) (c : ℕ) (cs : List ℕ)
      → is_space c ≡ false
      → elem_type c ≡ unknow
      → both.digits ≡ l.digits ++ m.digits
      → (eval (start []) (l.digits ++ c ∷ cs) ≡ returned (state [] l.digits) (unknow_symbol c))
        × (eval (start l.digits) m.digits
            ≡ returned (state [] []) (success (d.of_int (stoi 0 both.digits))))
  unfolding eval result eval_stack value_elem
  eval-unknow_keeps l m both c cs no_space h joined = (
    simp (
      eval_elems-append (start []) (start l.digits) l.digits (c ∷ cs)
          (eval_elems-digits [] [] l.digits l.only_digits (omega (arith, l.room))),
      elems-unknow [] l.digits c cs no_space h,
    ),
    simp (
      eval_elems-digits [] l.digits m.digits m.only_digits (joined_room l m both joined),
      eval_number-joined l m both joined,
    ),
  )
