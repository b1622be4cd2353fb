-- ===== src/Nnero/ThreadPool.antt =====
-- nnero/thread_pool.hpp and nnero/thread_pool.cpp: `ThreadPool`, with its workers as interleaved
-- steps. A task is a number, and runs without throwing. The task queue is the blocking queue at its
-- content and capacity; a wait in `take` is a worker that has no step. One thread calls `execute`
-- and `shutdown`, so every worker is started before the shutdown. From the shutdown on a worker may
-- find itself interrupted, or not yet. The steps say what a worker can do, and not that it does it:
-- `wakeUpAll` takes no mutex, so a worker that has tested its flag before `shutdown` sets it, and
-- sleeps in `take` after `wakeUpAll` has notified, takes no step any more, and `shutdown` waits for it.
mod Examples
pub mod Workers
pub mod Tasks
use cpp_prac.Prelude.{
  ℕ, zero, suc, ◌+◌, ◌-◌, ◌==◌, ◌&&◌, ◌≡◌, Bool, true, false, Option, none, some, List, [], ◌∷◌,
  ◌++◌, if◌then◌else◌, ltb, length, get_elem?, set,
}

-- Where a worker stands in `runWorker`: at the test of its loop, in `getTask`, before `task()`, at
-- the test of the loop in `runWithExit`, before the `task()` there, or at its end.
pub data Worker : Type 0 where
  at_test : Worker
  getting : Worker
  holding : ℕ → Worker
  draining : Worker
  drain_holding : ℕ → Worker
  exited : Worker

-- `done` lists the tasks that have run, `given` those that the queue accepted.
pub record ThreadPool : Type 0 where
  pub is_shutdown : Bool
  pub worker_cnt : ℕ
  pub core_size : ℕ
  pub workers : List Worker
  pub capacity : ℕ
  pub tasks : List ℕ
  pub done : List ℕ
  pub given : List ℕ

-- `ThreadPool(thread_num, queue_size)`; the queue size is 100 by default.
unfoldable pub new_pool : ℕ → ℕ → ThreadPool
new_pool thread_num queue_size = record {
  is_shutdown = false;
  worker_cnt = 0;
  core_size = thread_num;
  workers = [];
  capacity = queue_size;
  tasks = [];
  done = [];
  given = [];
}

-- `m_task_queue.add(func)`: a task is left out where the queue is full.
unfoldable pub enqueue : ThreadPool → ℕ → ThreadPool
enqueue p task =
    if length p.tasks == p.capacity
    then p
    else record p { tasks = p.tasks ++ task ∷ []; given = p.given ++ task ∷ [] }

-- A new worker, while there are fewer than `m_core_size`.
unfoldable pub spawn : ThreadPool → ThreadPool
spawn p =
    if ltb p.worker_cnt p.core_size
    then record p { worker_cnt = p.worker_cnt + 1; workers = p.workers ++ at_test ∷ [] }
    else p

unfoldable pub execute : ThreadPool → ℕ → ThreadPool
unfolding enqueue spawn
execute p task = if p.is_shutdown then p else spawn (enqueue p task)

-- `shutdown` up to its wait: the flag, the interrupts and the wake-up of all workers.
unfoldable pub shutdown : ThreadPool → ThreadPool
shutdown p = record p { is_shutdown = true }

-- Its wait ends when no worker is left.
unfoldable pub shutdown_returns : ThreadPool → Bool
shutdown_returns p = p.is_shutdown && (p.worker_cnt == 0)

-- The steps of a worker. In `take` an interrupt is looked at before the queue.
test_loop : ThreadPool → ThreadPool × Worker
test_loop p = (p, if p.is_shutdown then draining else getting)

get_task : ThreadPool → Bool → List ℕ → Option (ThreadPool × Worker)
get_task p true tasks = some (p, draining)
get_task p false [] = none
get_task p false (t ∷ ts) = some (record p { tasks = ts }, holding t)

run_task : ThreadPool → ℕ → Worker → ThreadPool × Worker
run_task p t next = (record p { done = p.done ++ t ∷ [] }, next)

-- `empty` and `poll` of `runWithExit`; where another worker empties the queue between the two,
-- `poll` throws and the loop ends as well. The end of the loop leads to the decrement.
drain : ThreadPool → List ℕ → ThreadPool × Worker
drain p [] = (record p { worker_cnt = p.worker_cnt - 1 }, exited)
drain p (t ∷ ts) = (record p { tasks = ts }, drain_holding t)

-- `none` is a worker that waits or that is gone.
unfoldable pub work : ThreadPool → Bool → Worker → Option (ThreadPool × Worker)
unfolding test_loop get_task run_task drain
work p interrupted at_test = some (test_loop p)
work p interrupted getting = get_task p interrupted p.tasks
work p interrupted (holding t) = some (run_task p t at_test)
work p interrupted draining = some (drain p p.tasks)
work p interrupted (drain_holding t) = some (run_task p t draining)
work p interrupted exited = none

-- A step of the program: a call by the client, or a step of one worker.
pub data Step (p : ThreadPool) : ThreadPool → Type 0 where
  executes : (task : ℕ) → Step p (execute p task)
  shuts_down : Step p (shutdown p)
  works :
      (interrupted : Bool) (before : List Worker) (w : Worker) (after : List Worker)
      (q : ThreadPool) (w' : Worker)
      → (interrupted ≡ true → p.is_shutdown ≡ true)
      → p.workers ≡ before ++ w ∷ after
      → work p interrupted w ≡ some (q, w')
      → Step p (record q { workers = before ++ w' ∷ after })

pub data Reach (p : ThreadPool) : ThreadPool → Type 0 where
  here : Reach p p
  next : {q r : ThreadPool} → Reach p q → Step q r → Reach p r
