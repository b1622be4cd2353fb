-- ===== src/Nnero/ThreadPool/Workers.antt =====
-- How many workers a pool of nnero/thread_pool.cpp has, and what they have left behind.
use cpp_prac.Prelude.{
  ℕ, ◌+◌, ◌≤◌, ◌<◌, ◌≡◌, refl, ap, ◌∙◌, Bool, true, false, some, List, [], ◌∷◌, ◌++◌, arith,
}
use cpp_prac.Nnero.ThreadPool.{
  Worker, at_test, getting, holding, draining, drain_holding, exited, ThreadPool, new_pool, execute,
  shutdown, work, Step, executes, shuts_down, works, Reach, here, next,
}

-- Whether a worker has not ended, and whether it is in the loop of `runWorker`.
unfoldable pub alive : Worker → ℕ
alive exited = 0
alive _ = 1

pub past_loop : Worker → ℕ
past_loop draining = 1
past_loop (drain_holding t) = 1
past_loop exited = 1
past_loop _ = 0

unfoldable pub ended : Worker → ℕ
ended exited = 1
ended _ = 0

unfoldable pub sum_over : (Worker → ℕ) → List Worker → ℕ
sum_over f [] = 0
sum_over f (w ∷ ws) = f w + sum_over f ws

pub sum_over-split :
    (f : Worker → ℕ) (before : List Worker) (w : Worker) (after : List Worker)
    → sum_over f (before ++ w ∷ after) ≡ f w + (sum_over f before + sum_over f after)
unfolding sum_over
sum_over-split f [] w after = omega arith
sum_over-split f (b ∷ before) w after = omega (arith, sum_over-split f before w after)

pub sum_over-new :
    (f : Worker → ℕ) (ws : List Worker) (w : Worker)
    → sum_over f (ws ++ w ∷ []) ≡ sum_over f ws + f w
unfolding sum_over
sum_over-new f [] w = omega arith
sum_over-new f (v ∷ ws) w = omega (arith, sum_over-new f ws w)

-- `m_worker_cnt` counts the workers that have not ended, at most `m_core_size` of them. No worker
-- leaves its loop before the shutdown, and none ends before the queue is empty.
pub record IsPool (p : ThreadPool) : Type 0 where
  pub counted : p.worker_cnt ≡ sum_over alive p.workers
  pub limited : p.worker_cnt ≤ p.core_size
  pub looping : p.is_shutdown ≡ false → sum_over past_loop p.workers ≡ 0
  pub drained : 0 < sum_over ended p.workers → p.tasks ≡ []

ended-le : (w : Worker) → ended w ≤ past_loop w
unfolding ended past_loop
ended-le exited = omega arith
ended-le draining = omega arith
ended-le _ = omega arith

pub new_pool-IsPool : (n k : ℕ) → IsPool (new_pool n k)
unfolding new_pool sum_over
new_pool-IsPool n k = ground arith

sum_over-le : (ws : List Worker) → sum_over ended ws ≤ sum_over past_loop ws
unfolding sum_over
sum_over-le [] = omega arith
sum_over-le (w ∷ ws) = omega (arith, ended-le w, sum_over-le ws)

execute-IsPool : (p : ThreadPool) (task : ℕ) → IsPool p → IsPool (execute p task)
unfolding execute alive past_loop ended
execute-IsPool p task v = ground (
  arith,
  sum_over-new alive p.workers at_test,
  sum_over-new past_loop p.workers at_test,
  sum_over-new ended p.workers at_test,
  sum_over-le p.workers,
)

-- The sums over the workers before and after a step of one of them.
module _ (p : ThreadPool) (before : List Worker) (w : Worker) (after : List Worker) (w' : Worker)
    (e : p.workers ≡ before ++ w ∷ after) where
  abbrev pub Moves : (Worker → ℕ) → Type 0
  Moves f = sum_over f p.workers + f w' ≡ sum_over f (before ++ w' ∷ after) + f w

  pub moves : (f : Worker → ℕ) → Moves f
  moves f =
      omega (
        arith,
        ap (sum_over f) e,
        sum_over-split f before w after,
        sum_over-split f before w' after,
      )

-- One step of a worker that has its place among others.
work-IsPool :
    (p : ThreadPool) (interrupted : Bool) (before : List Worker) (w : Worker) (after : List Worker)
    (q : ThreadPool) (w' : Worker)
    → (interrupted ≡ true → p.is_shutdown ≡ true)
    → p.workers ≡ before ++ w ∷ after
    → work p interrupted w ≡ some (q, w')
    → IsPool p
    → IsPool (record q { workers = before ++ w' ∷ after })
unfolding work alive past_loop ended
work-IsPool p b before at_test after q w' i e h v =
    let m = moves p before at_test after w' e in ground (arith, m alive, m past_loop, m ended)
work-IsPool p b before getting after q w' i e h v =
    let m = moves p before getting after w' e in ground (arith, i, m alive, m past_loop, m ended)
work-IsPool p b before (holding t) after q w' i e h v =
    let m = moves p before (holding t) after w' e in ground (arith, m alive, m past_loop, m ended)
work-IsPool p b before draining after q w' i e h v =
    let m = moves p before draining after w' e in ground (arith, m alive, m past_loop, m ended)
work-IsPool p b before (drain_holding t) after q w' i e h v =
    let m = moves p before (drain_holding t) after w' e in
    ground (arith, m alive, m past_loop, m ended)
work-IsPool p b before exited after q w' i e h v = ground arith

shutdown-IsPool : (p : ThreadPool) → IsPool p → IsPool (shutdown p)
unfolding shutdown
shutdown-IsPool p v = ground arith

pub new_pool-core : (n k : ℕ) → (new_pool n k).core_size ≡ n
unfolding new_pool
new_pool-core n k = refl

execute-core : (p : ThreadPool) (task : ℕ) → (execute p task).core_size ≡ p.core_size
unfolding execute
execute-core p task = ground arith

work-core :
    (p : ThreadPool) (b : Bool) (w : Worker) (q : ThreadPool) (w' : Worker)
    → work p b w ≡ some (q, w')
    → q.core_size ≡ p.core_size
unfolding work
work-core p b at_test q w' h = ground arith
work-core p b _ q w' h = ground arith

pub reach-core : {p q : ThreadPool} → Reach p q → q.core_size ≡ p.core_size
unfolding shutdown
reach-core here = refl
reach-core (next {q} r (executes task)) = execute-core q task ∙ reach-core r
reach-core (next r shuts_down) = reach-core r
reach-core (next {q} r (works b before w after q' w' i e h)) =
    work-core q b w q' w' h ∙ reach-core r

Step-IsPool : {p q : ThreadPool} → IsPool p → Step p q → IsPool q
Step-IsPool {p} v (executes task) = execute-IsPool p task v
Step-IsPool {p} v shuts_down = shutdown-IsPool p v
Step-IsPool {p} v (works b before w after q w' i e h) = work-IsPool p b before w after q w' i e h v

pub Reach-IsPool : {p q : ThreadPool} → IsPool p → Reach p q → IsPool q
Reach-IsPool v here = v
Reach-IsPool v (next r s) = Step-IsPool (Reach-IsPool v r) s

-- A pool never has more running workers than the constructor was given, in any interleaving.
pub reach-limited :
    (n k : ℕ) (p : ThreadPool) → Reach (new_pool n k) p → sum_over alive p.workers ≤ n
reach-limited n k p r =
    let v = Reach-IsPool (new_pool-IsPool n k) r in
    let same : p.core_size ≡ n = reach-core r ∙ new_pool-core n k in
    omega (arith, v.counted, v.limited)
