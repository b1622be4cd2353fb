-- ===== src/Nnero/Nthread.antt =====
-- nnero/nthread.hpp and nnero/nthread.cpp. A thread of the system has a number, and has its own
-- `interrupt_flag` as long as it runs; a pointer to a flag is the number of its thread. A thread
-- may end at any time; that it ends before its constructor writes its name is an argument.
pub mod Moves
mod Examples
use cpp_prac.Prelude.{
  ℕ, Bool, true, false, Option, none, some, List, [], ◌∷◌, ◌++◌, ◌==◌, if◌then◌else◌,
}
use cpp_prac.Nnero.Logging.{Text}

pub record InterruptFlag : Type 0 where
  pub flag : Bool
  pub name : Text

-- The flags of the threads that run.
abbrev pub Flags : Type 0
Flags = ℕ → Option InterruptFlag

abbrev pub put_flag : Flags → ℕ → Option InterruptFlag → Flags
put_flag w id f j = if j == id then f else w j

pub record Nthread : Type 0 where
  pub interrupt_flag : Option ℕ
  pub name : Text
  pub thread : Option ℕ

-- A call returns, throws an InterruptException, follows a pointer that is null or whose thread has
-- ended, ends the program by `std::terminate`, or throws the system's error for a thread that is not
-- joinable.
pub data Effect {ℓ} (A : Type ℓ) : Type ℓ where
  done : A → Flags → Effect A
  interrupted : Text → Effect A
  undefined : Effect A
  terminated : Effect A
  not_joinable : Effect A

-- " is interrupted"
abbrev pub is_interrupted_text : Text
is_interrupted_text =
    32 ∷ 105 ∷ 115 ∷ 32 ∷ 105 ∷ 110 ∷ 116 ∷ 101 ∷ 114 ∷ 114 ∷ 117 ∷ 112 ∷ 116 ∷ 101 ∷ 100 ∷ []

-- "nthread"
abbrev pub default_name : Text
default_name = 110 ∷ 116 ∷ 104 ∷ 114 ∷ 101 ∷ 97 ∷ 100 ∷ []

-- `what()` of the exception of a thread.
abbrev pub interrupt_message : Text → Text
interrupt_message name = name ++ is_interrupted_text

-- `interruptPoint()` in the thread `id`
unfoldable pub interrupt_point : ℕ → Flags → Effect (Unit {0})
interrupt_point id w = elim (w id) [
  | none ↦ undefined
  | some f ↦ if f.flag then interrupted (interrupt_message f.name) else done tt w
]

-- The flag of a thread that starts, with the name "thread".
abbrev pub new_flag : InterruptFlag
new_flag = record { flag = false; name = 116 ∷ 104 ∷ 114 ∷ 101 ∷ 97 ∷ 100 ∷ [] }

-- The end of a thread, with its flag.
abbrev pub end_thread : ℕ → Flags → Flags
end_thread id w = put_flag w id none

-- `m_interrupt_flag->setName(name)`
unfoldable pub set_name : ℕ → Text → Flags → Effect (Unit {0})
set_name id name w = elim (w id) [
  | none ↦ undefined
  | some f ↦ done tt (put_flag w id (some (record f { name = name })))
]

-- `Nthread(func, name)`, where the system starts the thread `id`, which may have given its flag to the
-- promise and ended before `setName`.
unfoldable pub start_thread : Bool → ℕ → Text → Flags → Effect Nthread
unfolding set_name
start_thread has_ended id name w =
    let spawned : Flags = put_flag w id (some new_flag) in
    let w' : Flags = if has_ended then end_thread id spawned else spawned in
    elim (set_name id name w') [
      | done u named ↦
          done (record { interrupt_flag = some id; name = name; thread = some id }) named
      | interrupted m ↦ interrupted m
      | undefined ↦ undefined
      | terminated ↦ terminated
      | not_joinable ↦ not_joinable
    ]

unfoldable pub joinable : Nthread → Bool
joinable t = elim t.thread [ none ↦ false | some id ↦ true ]

-- `*this = std::move(other)`: the two objects after it. A thread that is joinable is not to be
-- overwritten.
unfoldable pub move_assign : Bool → Nthread → Nthread → Flags → Effect (Nthread × Nthread)
unfolding joinable
move_assign is_same this other w =
    if is_same
    then done (this, other) w
    else if joinable this
    then terminated
    else done
        (
          record this { interrupt_flag = other.interrupt_flag; thread = other.thread },
          record other { interrupt_flag = none; thread = none },
        )
        w

-- `Nthread(Nthread&&)`, where `m_interrupt_flag` is what the memory has at first
unfoldable pub move_construct : Option ℕ → Nthread → Flags → Effect (Nthread × Nthread)
unfolding move_assign
move_construct memory other =
    move_assign false (record { interrupt_flag = memory; name = default_name; thread = none }) other

unfoldable pub is_interrupted : Nthread → Flags → Effect Bool
is_interrupted t w = elim t.interrupt_flag [
  | none ↦ undefined
  | some id ↦ elim (w id) [ none ↦ undefined | some f ↦ done f.flag w ]
]

unfoldable pub interrupt : Nthread → Flags → Effect (Unit {0})
interrupt t w = elim t.interrupt_flag [
  | none ↦ undefined
  | some id ↦ elim (w id) [
    | none ↦ undefined
    | some f ↦ done tt (if f.flag then w else put_flag w id (some (record f { flag = true })))
  ]
]

unfoldable pub detach_thread : Nthread → Flags → Effect Nthread
detach_thread t w = elim t.thread [
  | none ↦ not_joinable
  | some id ↦ done (record t { thread = none }) w
]

-- `join` returns when the thread has ended.
unfoldable pub join : Nthread → Flags → Effect Nthread
join t w = elim t.thread [
  | none ↦ done t w
  | some id ↦ done (record t { thread = none }) (end_thread id w)
]
