-- ===== src/Nnero/TimeWheel/Timing.antt =====
-- When the tasks of nnero/time_wheel.cpp run.
use cpp_prac.Prelude.{
  ℕ, zero, suc, ◌+◌, ◌*◌, ◌/◌, ◌%◌, ◌≤◌, ◌<◌, ◌≡◌, ◌^◌, ◌∙◌, true, false, none, some, List, [], ◌∷◌,
  ◌++◌, arith, ◌==◌, ◌&&◌, if◌then◌else◌, leb, ltb, length, count, count-append, get_elem?,
  get_elem?-some, get_elem?-none, set, length-set,
}
use cpp_prac.Prelude.Int.{ℤ, pos, negsuc}
use cpp_prac.Nnero.TimeWheel.{
  TimeTask, TimeWheel, due, remaining, tick, ticks, push_task, to_int, int_to_size, add_soon,
  add_later, add_task,
}
use cpp_prac.Nnero.TimeWheel.Slots.{
  distance, next, box_pending, box_pending-zero, box_pending-visit, box_pending-set,
}

-- A wheel between two ticks, with its thread in the loop.
pub record IsWheel (w : TimeWheel) : Type 0 where
  pub ten : length w.time_box ≡ 10
  pub index : w.curr_index < 10
  pub open_wheel : w.close ≡ false

module _ (w : TimeWheel) (v : IsWheel w) where
  tick_open :
      (tasks : List TimeTask)
      → get_elem? w.time_box w.curr_index ≡ some tasks
      → tick w ≡ record w {
        time_box = set w.time_box w.curr_index (remaining tasks);
        curr_index = next w.curr_index;
        executed = w.executed ++ due tasks;
      }
  unfolding tick
  tick_open tasks e = ground (arith, e, v.open_wheel)

tick-IsWheel : (w : TimeWheel) → IsWheel w → IsWheel (tick w)
tick-IsWheel w v =
    let (tasks, e) = get_elem?-some w.time_box w.curr_index (omega (arith, v.ten, v.index)) in
    rw (tick_open w v tasks e) (record {
      ten = length-set w.time_box w.curr_index (remaining tasks) ∙ v.ten;
      index = ground (arith, v.index);
      open_wheel = v.open_wheel;
    })

count-tick :
    (f k : ℕ) (w : TimeWheel)
    → IsWheel w
    → let w' = tick w in
      count f w'.executed + box_pending f k w'.curr_index 0 w'.time_box
      ≡ count f w.executed + box_pending f (k + 1) w.curr_index 0 w.time_box
count-tick f k w v =
    let (tasks, e) = get_elem?-some w.time_box w.curr_index (omega (arith, v.ten, v.index)) in
    rw (tick_open w v tasks e) (
      omega (
        arith,
        count-append f w.executed (due tasks),
        box_pending-visit f k w.curr_index 0 w.curr_index w.time_box tasks (omega arith)
            (omega (arith, v.ten)) e,
      ))

count-ticks :
    (f k : ℕ) (w : TimeWheel)
    → IsWheel w
    → count f (ticks k w).executed ≡ count f w.executed + box_pending f k w.curr_index 0 w.time_box
unfolding ticks
count-ticks f zero w v = omega (arith, box_pending-zero f w.curr_index 0 w.time_box)
count-ticks f (suc k) w v =
    let more : k + 1 ≡ suc k = omega arith in
    omega (arith, count-ticks f k (tick w) (tick-IsWheel w v), rw more at (count-tick f k w v))

-- What a run of the wheel `w'` has over one of `w`: `func` once, by the tick behind the next `n`.
abbrev pub RunsAfter : TimeWheel → TimeWheel → ℕ → ℕ → Type 0
RunsAfter w w' func n =
    (f k : ℕ)
    → count f (ticks k w').executed
      ≡ count f (ticks k w).executed + (if (func == f) && ltb n k then 1 else 0)

module _ (w : TimeWheel) (v : IsWheel w) (slot : ℕ) (t : TimeTask) (inside : slot < 10) (n : ℕ)
    (time : distance w.curr_index slot + 10 * t.rotation ≡ n) where
  module _ (tasks : List TimeTask) (e : get_elem? w.time_box slot ≡ some tasks) where
    abbrev pushed : TimeWheel
    pushed = record w { time_box = set w.time_box slot (tasks ++ t ∷ []) }

    push_task_lem : push_task w slot t ≡ some pushed
    unfolding push_task
    push_task_lem = rw (e, push_task)

    pushed-IsWheel : IsWheel pushed
    pushed-IsWheel = record {
      ten = length-set w.time_box slot (tasks ++ t ∷ []) ∙ v.ten;
      index = v.index;
      open_wheel = v.open_wheel;
    }

    pushed-RunsAfter : RunsAfter w pushed t.func n
    pushed-RunsAfter f k = rw (← time) (
        omega (
          arith,
          count-ticks f k pushed pushed-IsWheel,
          count-ticks f k w v,
          box_pending-set f k w.curr_index 0 slot slot w.time_box tasks t (omega arith) e,
        ))

  push_count : (w' : TimeWheel) × (push_task w slot t ≡ some w') × RunsAfter w w' t.func n
  push_count =
      let (tasks, e) = get_elem?-some w.time_box slot (omega (arith, v.ten)) in
      (pushed tasks e, push_task_lem tasks e, pushed-RunsAfter tasks e)

-- The slot and the rotation of a task add up to its delay.
later_time :
    (cur delay : ℕ)
    → cur < 10
    → distance cur ((delay / 10 + cur) % 10) + 10 * (delay / 10 / 10) ≡ delay / 10
later_time cur delay h = omega arith

narrow_slot :
    (cur delay : ℕ)
    → cur < 10
    → delay / 10 + 10 ≤ 2 ^ 31
    → int_to_size (to_int (delay / 10 + cur)) % 10 ≡ (delay / 10 + cur) % 10
unfolding int_to_size to_int
narrow_slot cur delay h k = ground arith

narrow_rotation :
    (delay : ℕ) → delay / 10 + 10 ≤ 2 ^ 31 → to_int (delay / 10 / 10) ≡ delay / 10 / 10
unfolding to_int
narrow_rotation delay k = omega arith

-- A task that is added with a delay of more than 10 ms, between two ticks of an open wheel, is run
-- by none of the next delay / 10 ticks and once by the tick after them; the other tasks run in the
-- same ticks as without it. The delay is to be so small that delay / 10 + 10 is at most 2 ^ 31, since
-- the number of ticks is narrowed to int.
pub add_task-delay :
    (w : TimeWheel) (func delay : ℕ)
    → IsWheel w
    → 10 < delay
    → delay / 10 + 10 ≤ 2 ^ 31
    → (w' : TimeWheel) × (add_task w func (pos delay) ≡ some w') × RunsAfter w w' func (delay / 10)
unfolding add_task add_later
add_task-delay w func delay v h small =
    let late : leb delay 10 ≡ false = ground arith in
    let t : TimeTask = record { rotation = delay / 10 / 10; func = func } in
    let (w', e, c) =
      push_count w v ((delay / 10 + w.curr_index) % 10) t (omega arith) (delay / 10)
        (later_time w.curr_index delay v.index) in
    (
      w',
      rw
          (
            late,
            add_later,
            narrow_slot w.curr_index delay v.index small,
            narrow_rotation delay small,
          )
          e,
      c,
    )

abbrev pub IsSoon : ℤ → Type 0
IsSoon (pos delay) = delay ≤ 10
IsSoon (negsuc _) = Unit

soon_count :
    (w : TimeWheel)
    → IsWheel w
    → (func : ℕ) → w.curr_index < 9
    → (w' : TimeWheel) × (add_soon w func ≡ some w') × RunsAfter w w' func 1
unfolding add_soon
soon_count w v func h =
    let t : TimeTask = record { rotation = 0; func = func } in
    push_count w v (w.curr_index + 1) t (omega arith) 1 (omega arith)

-- A task with a delay of at most 10 ms, or below 0, is run once, by the second tick from now, where
-- the wheel does not stand at its last slot; the other tasks run in the same ticks as without it.
pub add_task-soon :
    (w : TimeWheel) (func : ℕ) (delay : ℤ)
    → IsWheel w
    → w.curr_index < 9
    → IsSoon delay
    → (w' : TimeWheel) × (add_task w func delay ≡ some w') × RunsAfter w w' func 1
unfolding add_task add_soon
add_task-soon w func (pos delay) v h s =
    let soon : leb delay 10 ≡ true = ground arith in
    let (w', e, c) = soon_count w v func h in (w', rw soon e, c)
add_task-soon w func (negsuc delay) v h s = soon_count w v func h

-- At the last slot, and while the index is past it inside a tick, a task with a delay of at most
-- 10 ms is added past the end of the ten slots.
pub add_task-overruns :
    (w : TimeWheel) (func : ℕ) (delay : ℤ)
    → length w.time_box ≡ 10
    → 9 ≤ w.curr_index
    → IsSoon delay
    → add_task w func delay ≡ none
unfolding add_task add_soon push_task
add_task-overruns w func (pos delay) ten h s =
    let soon : leb delay 10 ≡ true = ground arith in
    let past : get_elem? w.time_box (w.curr_index + 1) ≡ none =
      get_elem?-none w.time_box _ (omega arith) in
    rw (soon, add_soon, push_task, past)
add_task-overruns w func (negsuc delay) ten h s =
    let past : get_elem? w.time_box (w.curr_index + 1) ≡ none =
      get_elem?-none w.time_box _ (omega arith) in
    rw (add_soon, push_task, past)
