-- ===== src/Nnero/BlockingQueue/Examples.antt =====
-- Runs of nnero/bqueue.hpp, and the theorems about it at inputs.
use cpp_prac.Prelude.{ℕ, ◌<◌, ◌≤◌, ◌≡◌, ◌⊎◌, refl, false, List, [], ◌∷◌, ◌++◌, arith, length}
use cpp_prac.Nnero.BlockingQueue.{
  BlockingQueue, refused, thrown_full, Call, polls, adds, puts, takes, offers, resumes_take,
  resumes_offer, new_queue, add, put, step, run,
}
use cpp_prac.Nnero.BlockingQueue.Bounds.{IsBounded, step-IsBounded, run-IsBounded, full_iff}
use cpp_prac.Nnero.BlockingQueue.Fifo.{entered, left, run_fifo}
use cpp_prac.Nnero.BlockingQueue.Wakeups.{IsAwake, run-IsAwake}

-- Two takers sleep; three elements are offered to a queue of two.
abbrev history : List (Call ℕ)
history =
    takes false
    ∷ takes false
    ∷ adds 5
    ∷ puts 6
    ∷ offers false 7
    ∷ resumes_take false
    ∷ resumes_offer false 7
    ∷ []

abbrev full_queue : BlockingQueue ℕ
full_queue = record {
  max = 2;
  items = 5 ∷ 6 ∷ [];
  sleeping_takers = 1;
  woken_takers = 1;
  sleeping_offerers = 0;
  woken_offerers = 0;
}

history_runs : (run (new_queue 2) history).items ≡ 6 ∷ 7 ∷ []
unfolding run step new_queue
history_runs = refl

step-IsBounded_example :
    IsBounded (step full_queue polls).0 × ((step full_queue polls).0.max ≡ full_queue.max)
step-IsBounded_example = step-IsBounded full_queue polls (omega arith)

run-IsBounded_example : length (run (new_queue 2) history).items ≤ 2
run-IsBounded_example = run-IsBounded 2 history

full_iff_example :
    ((length full_queue.items ≡ full_queue.max)
      × (add full_queue 7 ≡ (full_queue, refused))
      × (put full_queue 7 ≡ (full_queue, thrown_full)))
    ⊎ ((length full_queue.items < full_queue.max)
        × (add full_queue 7 ≡ put full_queue 7)
        × ((add full_queue 7).0.items ≡ full_queue.items ++ 7 ∷ []))
full_iff_example = full_iff full_queue 7 (omega arith)

run_fifo_example :
    full_queue.items ++ entered full_queue history
    ≡ left full_queue history ++ (run full_queue history).items
run_fifo_example = run_fifo full_queue history

run-IsAwake_example : IsAwake (run (new_queue 2) history)
run-IsAwake_example = run-IsAwake 2 history (refl, (refl, (tt, (tt, (refl, (refl, (refl, tt)))))))
