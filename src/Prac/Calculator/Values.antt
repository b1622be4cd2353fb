-- ===== src/Prac/Calculator/Values.antt =====
-- Which texts of expressions `eval` of prac/cal.cpp has a value for.
use cpp_prac.Prelude.{
  ℕ, ◌+◌, ◌≤◌, ◌⊎◌, inl, inr, none, some, List, [], ◌∷◌, ◌++◌, ◌≡◌, ◌∙◌, length, arith,
}
use native.Mathlib.Decide.{dec_lt}
use cpp_prac.Prac.Calculator.{
  Double, Elem, Calculator, returned, undefined, success, stoi, parse_elem, value_elem, eval_stack,
  eval_elems, result, eval,
}
use cpp_prac.Prac.Calculator.Grammar.{
  Literal, Expr, term, sum, Term, factor, product, Factor, literal, parens, Sign, Dot, sign_char,
  dot_char, text_expr, text_term, text_factor, number_of, size_factor, size_term, size_expr,
  some_factor, some_term, some_expr,
}
use cpp_prac.Prac.Calculator.Reading.{
  state, Settles, eval_elems-append, eval_elems-stops, eval_elems-digits, eval_number-literal,
  eval_stack-long, turn-dot, turn-sign, turn-sign_long, turn-left, turn-right,
}

module _ {A : Type 0} ⦃d : Double A⦄ where
  -- A text is undefined to read, or leaves `n` elements more on the stack.
  abbrev Reads : List (Elem A) → List ℕ → ℕ → Type 0
  Reads s cs n =
      (eval_elems (state s []) cs ≡ undefined)
      ⊎ ((cal : Calculator A) × (s' : List (Elem A)) × (eval_elems (state s []) cs
            ≡ returned cal none)
          × Settles cal s'
          × (length s + n ≤ length s'))

  -- One more text after a text and a sign that is pushed.
  Reads-after :
      (s s' : List (Elem A)) (x : Elem A) (cal : Calculator A) (xs rest ys : List ℕ) (n : ℕ)
      → eval_elems (state s []) xs ≡ returned cal none
      → eval_elems cal rest ≡ eval_elems (state (x ∷ s') []) ys
      → length s + 1 ≤ length s'
      → 1 ≤ n
      → Reads (x ∷ s') ys n
      → Reads s (xs ++ rest) 3
  Reads-after s s' x cal xs rest ys n h go more some_n (inl u) =
      inl (eval_elems-append (state s []) cal xs rest h ∙ go ∙ u)
  Reads-after s s' x cal xs rest ys n h go more some_n (inr (cal', s'', k, settles, longer)) =
      inr (cal', s'', eval_elems-append (state s []) cal xs rest h ∙ go ∙ k, settles, omega arith)

  parens-stops :
      (s : List (Elem A)) (xs : List ℕ) (n : ℕ)
      → 1 ≤ n
      → Reads (parse_elem 40 ∷ s) xs n
      → eval_elems (state s []) (40 ∷ xs ++ 41 ∷ []) ≡ undefined
  parens-stops s xs n some_n (inl u) =
      turn-left s (xs ++ 41 ∷ []) ∙ eval_elems-stops (state (parse_elem 40 ∷ s) []) xs (41 ∷ []) u
  parens-stops s xs n some_n (inr (cal, s', h, settles, longer)) =
      turn-left s (xs ++ 41 ∷ [])
      ∙ eval_elems-append (state (parse_elem 40 ∷ s) []) cal xs (41 ∷ []) h
      ∙ turn-right cal s' [] settles (omega arith)

  product-Reads :
      (s : List (Elem A)) (xs ys : List ℕ) (o : Dot) (m n : ℕ)
      → 1 ≤ m
      → 1 ≤ n
      → Reads s xs m
      → ((s' : List (Elem A)) → Reads s' ys n)
      → Reads s (xs ++ dot_char o ∷ ys) 3
  product-Reads s xs ys o m n some_m some_n (inl u) later =
      inl (eval_elems-stops (state s []) xs (dot_char o ∷ ys) u)
  product-Reads s xs ys o m n some_m some_n (inr (cal, s', h, settles, longer)) later =
      Reads-after s s' (parse_elem (dot_char o)) cal xs (dot_char o ∷ ys) ys n h
        (turn-dot cal s' o ys settles) (omega arith) some_n (later (parse_elem (dot_char o) ∷ s'))

  sum-Reads :
      (s : List (Elem A)) (xs ys : List ℕ) (o : Sign) (m n : ℕ)
      → 1 ≤ m
      → 1 ≤ n
      → Reads s xs m
      → ((s' : List (Elem A)) → Reads s' ys n)
      → Reads s (xs ++ sign_char o ∷ ys) 3
  sum-Reads s xs ys o m n some_m some_n (inl u) later =
      inl (eval_elems-stops (state s []) xs (sign_char o ∷ ys) u)
  sum-Reads s xs ys o m n some_m some_n (inr (cal, s', h, settles, longer)) later =
      elim (dec_lt (length s') 3) [
        | yes few ↦
            Reads-after s s' (parse_elem (sign_char o)) cal xs (sign_char o ∷ ys) ys n h
              (turn-sign cal s' o ys settles few) (omega arith) some_n
              (later (parse_elem (sign_char o) ∷ s'))
        | no many ↦ inl (
            eval_elems-append (state s []) cal xs (sign_char o ∷ ys) h
            ∙ turn-sign_long cal s' o ys settles (omega arith))
      ]

  mutual
    unfolding text_expr text_term text_factor

    factor-Reads : (f : Factor) (s : List (Elem A)) → Reads s (text_factor f) (size_factor f)
    factor-Reads (literal l) s = inr (
      state s l.digits,
      value_elem (d.of_int (stoi 0 l.digits)) ∷ s,
      eval_elems-digits s [] l.digits l.only_digits (omega (arith, l.room)),
      eval_number-literal l s,
      omega arith,
    )
    factor-Reads (parens e) s = inl (
        parens-stops s (text_expr e) (size_expr e) (some_expr e) (expr-Reads e (parse_elem 40 ∷ s)))

    term-Reads : (t : Term) (s : List (Elem A)) → Reads s (text_term t) (size_term t)
    term-Reads (factor f) s = factor-Reads f s
    term-Reads (product f o t) s =
        product-Reads s (text_factor f) (text_term t) o (size_factor f) (size_term t)
          (some_factor f) (some_term t) (factor-Reads f s) (λ s'. term-Reads t s')

    expr-Reads : (e : Expr) (s : List (Elem A)) → Reads s (text_expr e) (size_expr e)
    expr-Reads (term t) s = term-Reads t s
    expr-Reads (sum e o t) s =
        sum-Reads s (text_expr e) (text_term t) o (size_expr e) (size_term t) (some_expr e)
          (some_term t) (expr-Reads e s) (λ s'. term-Reads t s')

  eval-stops :
      (cs : List ℕ) (n : ℕ)
      → 3 ≤ n
      → Reads [] cs n
      → let start : Calculator A = state [] [] in eval start cs ≡ undefined
  unfolding eval
  eval-stops cs n many (inl u) = simp u
  eval-stops cs n many (inr (cal, s, h, settles, longer)) =
      simp (h, settles, eval_stack-long s (omega arith))

  pub eval-literal :
      (l : Literal)
      → eval (state [] []) l.digits ≡ returned (state [] []) (success (d.of_int (stoi 0 l.digits)))
  unfolding eval result value_elem eval_stack
  eval-literal l = simp (
    eval_elems-digits [] [] l.digits l.only_digits (omega (arith, l.room)),
    eval_number-literal l [],
  )

  -- On a calculator with nothing left over, `eval` of the text of an expression is defined only for an
  -- expression that is a number: it returns the number, with nothing left over again. With a sign or a
  -- parenthesis `evalStack` runs on three elements or more, and reads through a reference to an element
  -- that it has popped.
  pub eval-text :
      (e : Expr)
      → eval (state [] []) (text_expr e) ≡ elim (number_of e) [
        | some l ↦ returned (state [] []) (success (d.of_int (stoi 0 l.digits)))
        | none ↦ undefined
      ]
  unfolding text_expr text_term text_factor
  eval-text (term (factor (literal l))) = eval-literal l
  eval-text (term (factor (parens e))) =
      eval-stops _ 3 (omega arith) (expr-Reads (term (factor (parens e))) [])
  eval-text (term (product f o t)) =
      eval-stops _ 3 (omega arith) (expr-Reads (term (product f o t)) [])
  eval-text (sum e o t) = eval-stops _ 3 (omega arith) (expr-Reads (sum e o t) [])
