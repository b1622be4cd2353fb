-- ===== src/Prac/Calculator/Reading.antt =====
-- The turns of `eval` of prac/cal.cpp on the chars of an expression.
use cpp_prac.Prelude.{
  ℕ, ◌+◌, ◌≤◌, ◌<◌, Bool, true, false, ◌&&◌, Option, none, some, List, [], ◌∷◌, ◌++◌, ◌≡◌, refl,
  sym, ap, ◌∙◌, leb, if◌then◌else◌, length, length-append, arith,
}
use mathlib.Core.List.{append_assoc, append-nil}
use cpp_prac.Prac.Calculator.{
  Double, Elem, Calculator, Outcome, returned, thrown, undefined, CalResult, bind, buffer_size,
  stoi, is_space, elem_type, parse_elem, value_elem, buf_number, eval_number, push, eval_loop,
  eval_stack, eval_elem, eval_elems,
}
use cpp_prac.Prac.Calculator.Grammar.{
  are_digits, Literal, Sign, plus_sign, minus_sign, Dot, times_dot, over_dot, sign_char, dot_char,
}

digit-no_space : (c : ℕ) → (leb 48 c && leb c 57) ≡ true → is_space c ≡ false
unfolding is_space
digit-no_space c h = ground arith

and_split : (a b : Bool) → (a && b) ≡ true → (a ≡ true) × (b ≡ true)
and_split a b h = ground arith

module _ {A : Type 0} ⦃d : Double A⦄ where
  abbrev pub state : List (Elem A) → List ℕ → Calculator A
  state s buf = record { elem_stack = s; number_buf = buf }

  -- The loop goes on after a turn that returns nothing.
  bind-go_on :
      (o : Outcome A (Option (CalResult A))) (f g : Calculator A → Outcome A (Option (CalResult A)))
      (cal' : Calculator A) (r : Outcome A (Option (CalResult A)))
      → ((cal : Calculator A) → f cal ≡ returned cal' none → g cal ≡ r)
      → bind o (λ cal early. elim early [ none ↦ f cal | some v ↦ returned cal (some v) ])
        ≡ returned cal' none
      → bind o (λ cal early. elim early [ none ↦ g cal | some v ↦ returned cal (some v) ]) ≡ r
  bind-go_on (returned cal none) f g cal' r k h = k cal h
  bind-go_on (returned cal (some v)) f g cal' r k h = ground arith
  bind-go_on (thrown cal e) f g cal' r k h = ground arith
  bind-go_on undefined f g cal' r k h = ground arith

  pub eval_elems-append :
      (cal cal' : Calculator A) (xs ys : List ℕ)
      → eval_elems cal xs ≡ returned cal' none
      → eval_elems cal (xs ++ ys) ≡ eval_elems cal' ys
  unfolding eval_elems
  eval_elems-append cal cal' [] ys h = cc h
  eval_elems-append cal cal' (x ∷ xs) ys h =
      bind-go_on (if is_space x then returned cal none else eval_elem cal x) (λ c. eval_elems c xs)
        (λ c. eval_elems c (xs ++ ys)) cal' (eval_elems cal' ys)
        (λ c e. eval_elems-append c cal' xs ys e) h

  eval_elem-digit :
      (s : List (Elem A)) (buf : List ℕ) (c : ℕ)
      → (leb 48 c && leb c 57) ≡ true
      → length buf < buffer_size
      → eval_elem (state s buf) c ≡ returned (state s (buf ++ c ∷ [])) none
  unfolding eval_elem buf_number parse_elem elem_type
  eval_elem-digit s buf c h room = ground arith

  -- What a settled state is: its number, if any, goes on the stack.
  abbrev pub Settles : Calculator A → List (Elem A) → Type 0
  Settles cal s = eval_number cal ≡ returned (state s []) tt

  pub eval_number-literal :
      (l : Literal) (s : List (Elem A))
      → Settles (state s l.digits) (value_elem (d.of_int (stoi 0 l.digits)) ∷ s)
  unfolding eval_number
  eval_number-literal l s = grind (arith, l.some_digit, l.room, l.fits)

  eval_number-empty : (s : List (Elem A)) → Settles (state s []) s
  unfolding eval_number
  eval_number-empty s = refl

  -- One turn, and then the rest.
  pub eval_elems-turn :
      (cal cal' : Calculator A) (c : ℕ) (cs : List ℕ)
      → is_space c ≡ false
      → eval_elem cal c ≡ returned cal' none
      → eval_elems cal (c ∷ cs) ≡ eval_elems cal' cs
  unfolding eval_elems
  eval_elems-turn cal cal' c cs no_space h = simp (no_space, h)

  pub eval_elems-digits :
      (s : List (Elem A)) (buf ds : List ℕ)
      → are_digits ds ≡ true
      → length buf + length ds < buffer_size
      → eval_elems (state s buf) ds ≡ returned (state s (buf ++ ds)) none
  unfolding are_digits eval_elems
  eval_elems-digits s buf [] h room = ap (λ b. returned (state s b) none) (sym (append-nil buf))
  eval_elems-digits s buf (c ∷ cs) h room =
      let (digit, rest) = and_split (leb 48 c && leb c 57) (are_digits cs) h in
      eval_elems-turn (state s buf) (state s (buf ++ c ∷ [])) c cs (digit-no_space c digit)
        (eval_elem-digit s buf c digit (omega arith))
      ∙ eval_elems-digits s (buf ++ c ∷ []) cs rest (omega (arith, length-append buf (c ∷ [])))
      ∙ ap (λ b. returned (state s b) none) (append_assoc buf (c ∷ []) cs)

  -- A turn or a call of `eval` that is undefined stays so, whatever follows.
  bind-stops :
      (o : Outcome A (Option (CalResult A))) (f g : Calculator A → Outcome A (Option (CalResult A)))
      → ((cal : Calculator A) → f cal ≡ undefined → g cal ≡ undefined)
      → bind o (λ cal early. elim early [ none ↦ f cal | some v ↦ returned cal (some v) ])
        ≡ undefined
      → bind o (λ cal early. elim early [ none ↦ g cal | some v ↦ returned cal (some v) ])
        ≡ undefined
  bind-stops (returned cal none) f g k h = k cal h
  bind-stops (returned cal (some v)) f g k h = ground arith
  bind-stops (thrown cal e) f g k h = ground arith
  bind-stops undefined f g k h = refl

  pub eval_elems-stops :
      (cal : Calculator A) (xs ys : List ℕ)
      → eval_elems cal xs ≡ undefined
      → eval_elems cal (xs ++ ys) ≡ undefined
  unfolding eval_elems
  eval_elems-stops cal [] ys h = ground arith
  eval_elems-stops cal (x ∷ xs) ys h =
      bind-stops (if is_space x then returned cal none else eval_elem cal x) (λ c. eval_elems c xs)
        (λ c. eval_elems c (xs ++ ys)) (λ c e. eval_elems-stops c xs ys e) h

  eval_stack-short :
      (s : List (Elem A)) → length s < 3 → eval_stack (state s []) ≡ returned (state s []) tt
  unfolding eval_stack
  eval_stack-short s h = ground arith

  pub eval_stack-long : (s : List (Elem A)) → 3 ≤ length s → eval_stack (state s []) ≡ undefined
  unfolding eval_stack eval_loop
  eval_stack-long s h = ground arith

  -- The turns on the signs and the parentheses, on a settled state.
  pub turn-dot :
      (cal : Calculator A) (s : List (Elem A)) (o : Dot) (cs : List ℕ)
      → Settles cal s
      → eval_elems cal (dot_char o ∷ cs) ≡ eval_elems (state (parse_elem (dot_char o) ∷ s) []) cs
  unfolding eval_elem elem_type parse_elem push is_space
  turn-dot cal s times_dot cs h =
      eval_elems-turn cal (state (parse_elem 42 ∷ s) []) 42 cs refl (simp h)
  turn-dot cal s over_dot cs h =
      eval_elems-turn cal (state (parse_elem 47 ∷ s) []) 47 cs refl (simp h)

  pub turn-sign :
      (cal : Calculator A) (s : List (Elem A)) (o : Sign) (cs : List ℕ)
      → Settles cal s
      → length s < 3
      → eval_elems cal (sign_char o ∷ cs) ≡ eval_elems (state (parse_elem (sign_char o) ∷ s) []) cs
  unfolding eval_elem elem_type parse_elem push is_space
  turn-sign cal s plus_sign cs h few =
      eval_elems-turn cal (state (parse_elem 43 ∷ s) []) 43 cs refl
        (simp (h, eval_stack-short s few))
  turn-sign cal s minus_sign cs h few =
      eval_elems-turn cal (state (parse_elem 45 ∷ s) []) 45 cs refl
        (simp (h, eval_stack-short s few))

  turn-stops :
      (cal : Calculator A) (c : ℕ) (cs : List ℕ)
      → is_space c ≡ false
      → eval_elem cal c ≡ undefined
      → eval_elems cal (c ∷ cs) ≡ undefined
  unfolding eval_elems
  turn-stops cal c cs no_space h = simp (no_space, h)

  pub turn-sign_long :
      (cal : Calculator A) (s : List (Elem A)) (o : Sign) (cs : List ℕ)
      → Settles cal s
      → 3 ≤ length s
      → eval_elems cal (sign_char o ∷ cs) ≡ undefined
  unfolding eval_elem elem_type parse_elem push is_space
  turn-sign_long cal s plus_sign cs h many =
      turn-stops cal 43 cs refl (simp (h, eval_stack-long s many))
  turn-sign_long cal s minus_sign cs h many =
      turn-stops cal 45 cs refl (simp (h, eval_stack-long s many))

  pub turn-left :
      (s : List (Elem A)) (cs : List ℕ)
      → eval_elems (state s []) (40 ∷ cs) ≡ eval_elems (state (parse_elem 40 ∷ s) []) cs
  unfolding eval_elem eval_number elem_type parse_elem push is_space
  turn-left s cs = eval_elems-turn (state s []) (state (parse_elem 40 ∷ s) []) 40 cs refl refl

  pub turn-right :
      (cal : Calculator A) (s : List (Elem A)) (cs : List ℕ)
      → Settles cal s
      → 2 ≤ length s
      → eval_elems cal (41 ∷ cs) ≡ undefined
  unfolding eval_elem elem_type parse_elem push is_space
  turn-right cal s cs h many =
      turn-stops cal 41 cs refl (simp (h, eval_stack-long (parse_elem 41 ∷ s) (omega arith)))
