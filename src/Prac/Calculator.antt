-- ===== src/Prac/Calculator.antt =====
-- prac/cal.cpp and prac/cal.hpp. A char is its code, and a double is a value of a type with the
-- operations of `Double`. The stack has its top first. `evalStack` takes a reference to the
-- top of the stack, pops it, and reads through the reference, which is undefined: the rest of its loop
-- is never reached with a defined behaviour, and is not modelled.
mod Examples
pub mod Grammar
pub mod Reading
pub mod Values
pub mod Session
pub mod Reuse
use cpp_prac.Prelude.{
  ℕ, ◌+◌, ◌-◌, ◌*◌, Bool, true, false, ◌&&◌, ◌||◌, Option, none, some, List, [], ◌∷◌, ◌++◌, ltb,
  leb, ◌==◌, if◌then◌else◌, length,
}

-- The type double, its 0, the value of an int, and the four operations.
pub record Double (A : Type 0) : Type 0 where
  pub of_int : ℕ → A
  pub plus : A → A → A
  pub minus : A → A → A
  pub times : A → A → A
  pub over : A → A → A

pub data EType : Type 0 where
  number add div sub multi left_parenth right_parenth val unknow : EType

pub record Elem (A : Type 0) : Type 0 where
  pub c : ℕ
  pub value : A
  pub etype : EType

-- `numberBuf` up to `index`, which is its length.
pub record Calculator (A : Type 0) : Type 0 where
  pub elem_stack : List (Elem A)
  pub number_buf : List ℕ

pub data CalResult (A : Type 0) : Type 0 where
  success : A → CalResult A
  unknow_symbol : ℕ → CalResult A
  error_expression : List ℕ → CalResult A

-- The exceptions: three of type runtime_error, which `evalStack` throws where its behaviour is not
-- defined any more, and that of `stoi`.
pub data Failure : Type 0 where
  error_expr : EType → Failure
  missing_parenth unknow_opt out_of_range : Failure

-- A call returns, throws, or has no defined behaviour.
pub data Outcome (A : Type 0) (B : Type 0) : Type 0 where
  returned : Calculator A → B → Outcome A B
  thrown : Calculator A → Failure → Outcome A B
  undefined : Outcome A B

abbrev pub bind : {A B C : Type 0} → Outcome A B → (Calculator A → B → Outcome A C) → Outcome A C
bind (returned cal b) f = f cal b
bind (thrown cal e) f = thrown cal e
bind undefined f = undefined

abbrev pub buffer_size : ℕ
buffer_size = 64

abbrev pub int_max : ℕ
int_max = 2147483647

-- `stoi` on a buffer that holds digits.
unfoldable pub stoi : ℕ → List ℕ → ℕ
stoi n [] = n
stoi n (c ∷ cs) = stoi (n * 10 + (c - 48)) cs

-- The white space that `>>` skips.
unfoldable pub is_space : ℕ → Bool
is_space c = c == 32 || leb 9 c && leb c 13

unfoldable pub elem_type : ℕ → EType
elem_type c =
    if c == 43
    then add
    else if c == 45
    then sub
    else if c == 47
    then div
    else if c == 42
    then multi
    else if c == 40
    then left_parenth
    else if c == 41
    then right_parenth
    else if leb 48 c && leb c 57
    then number
    else unknow

module _ {A : Type 0} ⦃d : Double A⦄ where
  unfoldable pub parse_elem : ℕ → Elem A
  parse_elem c = record { c = c; value = d.of_int 0; etype = elem_type c }

  unfoldable pub value_elem : A → Elem A
  value_elem v = record { c = 0; value = v; etype = val }

  unfoldable pub buf_number : Calculator A → ℕ → Outcome A Unit
  buf_number cal c =
      if ltb (length cal.number_buf) buffer_size
      then returned (record cal { number_buf = cal.number_buf ++ c ∷ [] }) tt
      else undefined

  -- The 0 that ends the number needs a place in the buffer too.
  unfoldable pub eval_number : Calculator A → Outcome A Unit
  unfolding stoi value_elem
  eval_number cal =
      if length cal.number_buf == 0
      then returned cal tt
      else if leb buffer_size (length cal.number_buf)
      then undefined
      else if ltb int_max (stoi 0 cal.number_buf)
      then thrown cal out_of_range
      else returned
          (record {
            elem_stack = value_elem (d.of_int (stoi 0 cal.number_buf)) ∷ cal.elem_stack;
            number_buf = [];
          })
          tt

  unfoldable pub clear_stack : Calculator A → Calculator A
  clear_stack cal = record cal { elem_stack = [] }

  -- `evalOpt` on elements that are there; `none` is the exception.
  unfoldable pub eval_opt : Elem A → Elem A → Elem A → Option A
  eval_opt left opt right = elim opt.etype [
    | add ↦ some (d.plus left.value right.value)
    | sub ↦ some (d.minus left.value right.value)
    | multi ↦ some (d.times left.value right.value)
    | div ↦ some (d.over left.value right.value)
    | _ ↦ none
  ]

  -- The loop of `evalStack`: with more than one element, `opt_right` refers to an element that is
  -- popped when its type is read.
  unfoldable pub eval_loop : Calculator A → Outcome A Unit
  eval_loop cal = if ltb 1 (length cal.elem_stack) then undefined else returned cal tt

  unfoldable pub eval_stack : Calculator A → Outcome A Unit
  unfolding eval_loop
  eval_stack cal = if ltb (length cal.elem_stack) 3 then returned cal tt else eval_loop cal

  unfoldable pub push : Elem A → Calculator A → Calculator A
  push e cal = record cal { elem_stack = e ∷ cal.elem_stack }

  -- One turn of the loop of `eval` on a char that is no white space: the result of an early return.
  unfoldable pub eval_elem : Calculator A → ℕ → Outcome A (Option (CalResult A))
  unfolding buf_number eval_number clear_stack eval_stack push parse_elem
  eval_elem cal c =
      let e = parse_elem c in
      elim e.etype [
        | unknow ↦ returned (clear_stack cal) (some (unknow_symbol c))
        | number ↦ bind (buf_number cal c) (λ cal _. returned cal none)
        | right_parenth ↦
            bind (eval_number cal)
              λ cal _. bind (eval_stack (push e cal)) λ cal _. returned cal none
        | sub ↦
            bind (eval_number cal)
              λ cal _. bind (eval_stack cal) λ cal _. returned (push e cal) none
        | add ↦
            bind (eval_number cal)
              λ cal _. bind (eval_stack cal) λ cal _. returned (push e cal) none
        | _ ↦ bind (eval_number cal) λ cal _. returned (push e cal) none
      ]

  unfoldable pub eval_elems : Calculator A → List ℕ → Outcome A (Option (CalResult A))
  eval_elems cal [] = returned cal none
  eval_elems cal (c ∷ cs) =
      bind (if is_space c then returned cal none else eval_elem cal c)
        λ cal early. elim early [ none ↦ eval_elems cal cs | some r ↦ returned cal (some r) ]

  -- The end of `eval`; the top of an empty stack is undefined.
  unfoldable pub result : List ℕ → Calculator A → Outcome A (CalResult A)
  unfolding clear_stack
  result expr cal = elim cal.elem_stack [
    | [] ↦ undefined
    | e ∷ [] ↦ returned (record cal { elem_stack = [] }) (success e.value)
    | _ ↦ returned (clear_stack cal) (error_expression expr)
  ]

  unfoldable pub eval : Calculator A → List ℕ → Outcome A (CalResult A)
  eval cal expr = bind (eval_elems cal expr) λ cal early. elim early [
    | some r ↦ returned cal r
    | none ↦ bind (eval_number cal) λ cal _. bind (eval_stack cal) λ cal _. result expr cal
  ]

abbrev pub new_calculator : {A : Type 0} → Calculator A
new_calculator = record { elem_stack = []; number_buf = [] }
