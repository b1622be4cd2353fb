-- ===== src/Prac/TextQuery.antt =====
-- prac/tq.cpp and prac/tq.hpp. A string is the list of its chars' codes, an expression is the words
-- that `>>` reads from it, and a file is the lines that `getline` reads from it.
mod Examples
pub mod Meaning
pub mod Queries
use cpp_prac.Prelude.{
  ℕ, zero, suc, ◌+◌, ◌%◌, ◌==◌, Bool, true, false, ◌&&◌, ◌||◌, Option, none, some, List, [], ◌∷◌,
  ◌++◌, if◌then◌else◌, ltb, length,
}

abbrev pub Word : Type 0
Word = List ℕ

pub record Result : Type 0 where
  pub line_content : Word
  pub line_number : ℕ

-- `line.find(word) != npos`
unfoldable pub is_prefix : Word → Word → Bool
is_prefix [] line = true
is_prefix (c ∷ cs) [] = false
is_prefix (c ∷ cs) (d ∷ ds) = (c == d) && is_prefix cs ds

unfoldable pub finds : Word → Word → Bool
unfolding is_prefix
finds word [] = is_prefix word []
finds word (c ∷ cs) = is_prefix word (c ∷ cs) || finds word cs

-- The loop of `occursInFile`.
unfoldable pub occurs_from : Word → ℕ → List Word → List Result
occurs_from word n [] = []
occurs_from word n (line ∷ lines) =
    let rest = occurs_from word (n + 1) lines in
    if finds word line then record { line_content = line; line_number = n } ∷ rest else rest

unfoldable pub occurs_in_file : List Word → Word → List Result
occurs_in_file lines word = occurs_from word 1 lines

-- `operator<`
unfoldable pub is_before : Result → Result → Bool
is_before a b = ltb a.line_number b.line_number

-- `set_intersection` and `set_union` of ranges in order, one unit of fuel to an element.
unfoldable pub intersection : ℕ → List Result → List Result → List Result
unfolding is_before
intersection (suc n) (x ∷ xs) (y ∷ ys) =
    let skip_x = intersection n xs (y ∷ ys) in
    let skip_y = intersection n (x ∷ xs) ys in
    let both = intersection n xs ys in
    if is_before x y then skip_x else if is_before y x then skip_y else x ∷ both
intersection _ _ _ = []

unfoldable pub union : ℕ → List Result → List Result → List Result
unfolding is_before
union n [] ys = ys
union n (x ∷ xs) [] = x ∷ xs
union zero (x ∷ xs) (y ∷ ys) = []
union (suc n) (x ∷ xs) (y ∷ ys) =
    let with_x = union n xs (y ∷ ys) in
    let with_y = union n (x ∷ xs) ys in
    let both = union n xs ys in
    if is_before x y then x ∷ with_x else if is_before y x then y ∷ with_y else x ∷ both

-- `operator&` and `operator|`
unfoldable pub intersect : List Result → List Result → List Result
intersect a b = intersection (length a + length b) a b

unfoldable pub unite : List Result → List Result → List Result
unite a b = union (length a + length b) a b

-- The words `&` and `|`.
unfoldable pub is_char : ℕ → Word → Bool
is_char c [] = false
is_char c (d ∷ []) = d == c
is_char c (d ∷ e ∷ ds) = false

abbrev pub is_and : Word → Bool
is_and w = is_char 38 w

abbrev pub is_or : Word → Bool
is_or w = is_char 124 w

-- The queue of commands after `parseExpr`, or the exception and the queue that it leaves.
pub data Parsing : Type 0 where
  parsed need_operator operator_here missing_right : List Word → Parsing

unfoldable pub parse_words : Bool → List Word → List Word → Parsing
parse_words next_should_operator commands [] =
    if length commands % 2 == 0 then missing_right commands else parsed commands
parse_words true commands (w ∷ ws) =
    let rest = parse_words false (commands ++ w ∷ []) ws in
    if is_and w || is_or w then rest else need_operator commands
parse_words false commands (w ∷ ws) =
    let rest = parse_words true (commands ++ w ∷ []) ws in
    if is_and w || is_or w then operator_here commands else rest

unfoldable pub parse_expr : List Word → List Word → Parsing
parse_expr commands expr = parse_words false commands expr

-- The loop of `evalCommands`; the front of an empty queue is undefined.
unfoldable pub eval_queue : List Word → List Result → List Word → Option (List Result)
eval_queue lines tq [] = some tq
eval_queue lines tq (c ∷ []) =
    if is_and c || is_or c then none else some (tq ++ occurs_in_file lines c)
eval_queue lines tq (c ∷ w ∷ ws) =
    let next_word = eval_queue lines (tq ++ occurs_in_file lines c) (w ∷ ws) in
    if is_and c
    then eval_queue lines (intersect tq (occurs_in_file lines w)) ws
    else if is_or c
    then eval_queue lines (unite tq (occurs_in_file lines w)) ws
    else next_word

unfoldable pub eval_commands : List Word → List Word → Option (List Result)
eval_commands lines commands = eval_queue lines [] commands
