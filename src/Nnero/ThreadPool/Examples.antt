-- ===== src/Nnero/ThreadPool/Examples.antt =====
-- Runs of nnero/thread_pool.cpp, and the theorems about it at inputs.
use cpp_prac.Prelude.{ℕ, ◌+◌, ◌≤◌, ◌≡◌, refl, true, false, some, List, [], ◌∷◌, arith, count}
use cpp_prac.Nnero.ThreadPool.{
  Worker, at_test, draining, drain_holding, exited, work, ThreadPool, new_pool, execute, shutdown,
  shutdown_returns, Step, executes, shuts_down, works, Reach, here, next,
}
use cpp_prac.Nnero.ThreadPool.Workers.{alive, sum_over, reach-limited}
use cpp_prac.Nnero.ThreadPool.Tasks.{holds, reach-kept, shutdown-drains}

-- One worker; two tasks are given before the shutdown, and the worker runs both after it.
abbrev given : ThreadPool
given = record {
  is_shutdown = true;
  worker_cnt = 1;
  core_size = 1;
  workers = at_test ∷ [];
  capacity = 5;
  tasks = 8 ∷ 9 ∷ [];
  done = [];
  given = 8 ∷ 9 ∷ [];
}

abbrev after_run : ThreadPool
after_run = record given { worker_cnt = 0; workers = exited ∷ []; tasks = []; done = 8 ∷ 9 ∷ [] }

reach_given : Reach (new_pool 1 5) given
unfolding new_pool execute shutdown
reach_given = next (next (next here (executes 8)) (executes 9)) shuts_down

-- A step of the one worker.
solo :
    (p q : ThreadPool) (w w' : Worker)
    → p.workers ≡ w ∷ []
    → work p false w ≡ some (q, w')
    → Step p (record q { workers = w' ∷ [] })
solo p q w w' e h = works false [] w [] q w' (λ k. cc) e h

abbrev stage : List Worker → List ℕ → List ℕ → ThreadPool
stage workers tasks done = record given { workers = workers; tasks = tasks; done = done }

reach_after : Reach (new_pool 1 5) after_run
unfolding work
reach_after =
    let a = next reach_given (solo given given at_test draining refl refl) in
    let b = next a (
      solo (stage (draining ∷ []) (8 ∷ 9 ∷ []) []) (stage (draining ∷ []) (9 ∷ []) []) draining
        (drain_holding 8) refl refl) in
    let c = next b (
      solo (stage (drain_holding 8 ∷ []) (9 ∷ []) [])
        (stage (drain_holding 8 ∷ []) (9 ∷ []) (8 ∷ [])) (drain_holding 8) draining refl refl) in
    let d = next c (
      solo (stage (draining ∷ []) (9 ∷ []) (8 ∷ [])) (stage (draining ∷ []) [] (8 ∷ [])) draining
        (drain_holding 9) refl refl) in
    let e = next d (
      solo (stage (drain_holding 9 ∷ []) [] (8 ∷ [])) (stage (drain_holding 9 ∷ []) [] (8 ∷ 9 ∷ []))
        (drain_holding 9) draining refl refl) in
    next e (
      solo (stage (draining ∷ []) [] (8 ∷ 9 ∷ []))
        (record (stage (draining ∷ []) [] (8 ∷ 9 ∷ [])) { worker_cnt = 0 }) draining exited refl
        refl)

reach-limited_example : sum_over alive given.workers ≤ 1
reach-limited_example = reach-limited 1 5 given reach_given

reach-kept_example :
    count 8 given.given
    ≡ count 8 given.done + count 8 given.tasks + sum_over (holds 8) given.workers
reach-kept_example = reach-kept 1 5 8 given reach_given

shutdown-drains_example :
    (after_run.tasks ≡ []) × (count 9 after_run.done ≡ count 9 after_run.given)
unfolding shutdown_returns
shutdown-drains_example = shutdown-drains 1 5 9 after_run (omega arith) reach_after refl
