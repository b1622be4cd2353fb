-- ===== src/Nnero/TimeWheel/Examples.antt =====
-- Runs of nnero/time_wheel.cpp, and the theorems about it at inputs.
use cpp_prac.Prelude.{◌/◌, ◌≡◌, refl, true, false, none, some, [], ◌∷◌, arith}
use cpp_prac.Prelude.Int.{pos}
use cpp_prac.Nnero.TimeWheel.{TimeWheel, tick, ticks, add_task, close_wheel, already_closed, thrown}
use cpp_prac.Nnero.TimeWheel.Timing.{
  IsWheel, RunsAfter, add_task-delay, add_task-soon, add_task-overruns,
}

-- The wheel stands at slot 8, and one task waits in slot 9.
abbrev turning : TimeWheel
turning = record {
  time_box =
      [] ∷ [] ∷ [] ∷ [] ∷ [] ∷ [] ∷ [] ∷ [] ∷ [] ∷ (record { rotation = 1; func = 4 } ∷ []) ∷ [];
  curr_index = 8;
  started = true;
  close = false;
  executed = [];
  pool_shutdown = false;
}

turning-IsWheel : IsWheel turning
turning-IsWheel = record { ten = refl; index = omega arith; open_wheel = refl }

-- After a visit the task of rotation 1 is run by the next visit of its slot, eleven ticks later.
turning_runs : (ticks 11 turning).executed ≡ []
unfolding ticks tick
turning_runs = refl

turning_runs_then : (ticks 12 turning).executed ≡ 4 ∷ []
unfolding ticks tick
turning_runs_then = refl

add_task-delay_example :
    (w' : TimeWheel) × (add_task turning 5 (pos 125) ≡ some w') × RunsAfter turning w' 5 (125 / 10)
add_task-delay_example = add_task-delay turning 5 125 turning-IsWheel (omega arith) (omega arith)

add_task-overruns_example : add_task (tick turning) 5 (pos 7) ≡ none
unfolding tick
add_task-overruns_example =
    add_task-overruns (tick turning) 5 (pos 7) refl (omega arith) (omega arith)

add_task-soon_example :
    (w' : TimeWheel) × (add_task turning 5 (pos 7) ≡ some w') × RunsAfter turning w' 5 1
add_task-soon_example = add_task-soon turning 5 (pos 7) turning-IsWheel (omega arith) (omega arith)

-- A wheel that was never started throws, and its pool is not shut down.
abbrev idle : TimeWheel
idle = record turning { started = false }

close_idle : close_wheel idle ≡ (record idle { close = true }, thrown)
unfolding close_wheel
close_idle = refl

close_twice : (close_wheel (close_wheel turning).0).1 ≡ already_closed
unfolding close_wheel
close_twice = refl
