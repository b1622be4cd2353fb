-- ===== src/Nnero/TimeWheel.antt =====
-- nnero/time_wheel.hpp and nnero/time_wheel.cpp: `TimeTask` and `TimeWheel`. A wheel has ten slots,
-- and its thread visits one in each tick of 10 ms. A task is the number of its function. The pool
-- that runs the tasks is the list of what `execute` was given, in order.
mod Examples
pub mod Timing
pub mod Slots
use cpp_prac.Prelude.{
  ℕ, zero, suc, ◌+◌, ◌-◌, ◌/◌, ◌%◌, ◌^◌, ◌==◌, Bool, true, false, Option, none, some, List, [], ◌∷◌,
  ◌++◌, if◌then◌else◌, leb, ltb, length, get_elem?, set, replicate,
}
use cpp_prac.Prelude.Int.{ℤ, pos, negsuc}

-- `m_rotation` is the bit pattern of an int, below 2 ^ 32.
pub record TimeTask : Type 0 where
  pub rotation : ℕ
  pub func : ℕ

-- `checkCanRun`: the answer, and the task after it.
unfoldable pub check_can_run : TimeTask → Bool × TimeTask
check_can_run t =
    if t.rotation == 0 then (true, t) else (false, record t { rotation = t.rotation - 1 })

-- `m_time_box`, `m_curr_index`, whether `m_thread` runs, `m_close`, the tasks that `m_execute_pool` was
-- given, and whether its `shutdown` was called.
pub record TimeWheel : Type 0 where
  pub time_box : List (List TimeTask)
  pub curr_index : ℕ
  pub started : Bool
  pub close : Bool
  pub executed : List ℕ
  pub pool_shutdown : Bool

abbrev pub min_unit : ℕ
min_unit = 10

abbrev pub slots : ℕ
slots = 10

unfoldable pub new_wheel : TimeWheel
new_wheel = record {
  time_box = replicate slots [];
  curr_index = 0;
  started = false;
  close = false;
  executed = [];
  pool_shutdown = false;
}

-- `m_time_box[slot]->push_back(task)`; `none` is an index past the ten slots.
push_task : TimeWheel → ℕ → TimeTask → Option TimeWheel
push_task w slot t = elim (get_elem? w.time_box slot) [
  | none ↦ none
  | some tasks ↦ some (record w { time_box = set w.time_box slot (tasks ++ t ∷ []) })
]

-- The bit pattern of the int that a number is narrowed to.
to_int : ℕ → ℕ
to_int n = n % 2 ^ 32

-- The size_t that an int is converted to: a negative one wraps at 2 ^ 64.
int_to_size : ℕ → ℕ
int_to_size w = if ltb w (2 ^ 31) then w else w + (2 ^ 64 - 2 ^ 32)

-- A delay above 10. `execute_unit` and `rotation` are narrowed to int.
add_later : TimeWheel → ℕ → ℕ → Option TimeWheel
unfolding push_task to_int int_to_size
add_later w func delay =
    let execute_unit = to_int (delay / min_unit + w.curr_index) in
    push_task w (int_to_size execute_unit % slots)
      (record { rotation = to_int (delay / min_unit / slots); func = func })

-- A delay of at most 10, also one below 0.
add_soon : TimeWheel → ℕ → Option TimeWheel
unfolding push_task
add_soon w func = push_task w (w.curr_index + 1) (record { rotation = 0; func = func })

unfoldable pub add_task : TimeWheel → ℕ → ℤ → Option TimeWheel
unfolding add_later add_soon
add_task w func (pos delay) = if leb delay 10 then add_soon w func else add_later w func delay
add_task w func (negsuc _) = add_soon w func

-- The loop over the tasks of a slot: those to run, and `remain_list`.
pub due : List TimeTask → List ℕ
due [] = []
due (t ∷ ts) = if (check_can_run t).0 then t.func ∷ due ts else due ts

pub remaining : List TimeTask → List TimeTask
remaining [] = []
remaining (t ∷ ts) =
    if (check_can_run t).0 then remaining ts else (check_can_run t).1 ∷ remaining ts

-- `++m_curr_index`
unfoldable pub advance : TimeWheel → TimeWheel
advance w = record w { curr_index = w.curr_index + 1 }

-- The wrap of the index at the number of slots.
unfoldable pub wrap : TimeWheel → TimeWheel
wrap w = if leb slots w.curr_index then record w { curr_index = 0 } else w

-- The visit of the slot `current`.
unfoldable pub visit : ℕ → TimeWheel → TimeWheel
unfolding check_can_run due remaining
visit current w = elim (get_elem? w.time_box current) [
  | none ↦ w
  | some tasks ↦ record w {
    time_box = set w.time_box current (remaining tasks);
    executed = w.executed ++ due tasks;
  }
]

-- One round of the loop of `tick`.
unfoldable pub tick : TimeWheel → TimeWheel
unfolding advance wrap visit
tick w = if w.close then w else visit w.curr_index (wrap (advance w))

unfoldable pub ticks : ℕ → TimeWheel → TimeWheel
ticks zero w = w
ticks (suc n) w = ticks n (tick w)

-- `startTick`; `none` is the end of the program, where a thread that runs is overwritten.
unfoldable pub start_tick : TimeWheel → Option TimeWheel
start_tick w = if w.started then none else some (record w { started = true })

-- How `close` ends: `join` throws where the thread does not run, and `shutdown` is not called then.
pub data Closing : Type 0 where
  closed already_closed thrown : Closing

unfoldable pub close_wheel : TimeWheel → TimeWheel × Closing
close_wheel w =
    if w.close
    then (w, already_closed)
    else if w.started
    then (record w { close = true; started = false; pool_shutdown = true }, closed)
    else (record w { close = true }, thrown)
