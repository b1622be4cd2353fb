-- ===== src/Nnero/ThreadPool/Tasks.antt =====
-- What becomes of the tasks of nnero/thread_pool.cpp.
use cpp_prac.Prelude.{
  ℕ, ◌+◌, ◌≤◌, ◌<◌, ◌≡◌, ◌⊎◌, inl, inr, refl, ap, ◌∙◌, Bool, true, some, List, [], ◌∷◌, arith, ◌==◌,
  if◌then◌else◌, length, length-append, count, count-append,
}
use cpp_prac.Nnero.ThreadPool.{
  Worker, at_test, getting, holding, draining, drain_holding, exited, ThreadPool, new_pool, execute,
  shutdown, shutdown_returns, work, executes, shuts_down, works, Reach, here, next,
}
use cpp_prac.Nnero.ThreadPool.Workers.{
  alive, ended, sum_over, sum_over-new, moves, IsPool, new_pool-IsPool, Reach-IsPool, reach-core,
  new_pool-core,
}

-- Whether a worker holds the task `f`.
pub holds : ℕ → Worker → ℕ
holds f (holding t) = if t == f then 1 else 0
holds f (drain_holding t) = if t == f then 1 else 0
holds f _ = 0

execute-kept :
    (f : ℕ) (p : ThreadPool) (task : ℕ)
    → count f p.given ≡ count f p.done + count f p.tasks + sum_over (holds f) p.workers
    → let q = execute p task in
      count f q.given ≡ count f q.done + count f q.tasks + sum_over (holds f) q.workers
unfolding execute holds
execute-kept f p task h = ground (
  arith,
  sum_over-new (holds f) p.workers at_test,
  count-append f p.given (task ∷ []),
  count-append f p.tasks (task ∷ []),
)

work-kept :
    (f : ℕ) (p : ThreadPool) (b : Bool) (w : Worker) (q : ThreadPool) (w' : Worker)
    → work p b w ≡ some (q, w')
    → (count f q.given ≡ count f p.given)
      × (count f q.done + count f q.tasks + holds f w'
          ≡ count f p.done + count f p.tasks + holds f w)
unfolding work holds
work-kept f p b at_test q w' h = ground arith
work-kept f p b getting q w' h = ground arith
work-kept f p b (holding t) q w' h = ground (arith, count-append f p.done (t ∷ []))
work-kept f p b draining q w' h = ground arith
work-kept f p b (drain_holding t) q w' h = ground (arith, count-append f p.done (t ∷ []))
work-kept f p b exited q w' h = ground arith

new_pool-kept :
    (n k f : ℕ)
    → let p = new_pool n k in
      count f p.given ≡ count f p.done + count f p.tasks + sum_over (holds f) p.workers
unfolding new_pool sum_over
new_pool-kept n k f = omega arith

-- Every accepted task is, as often as it was accepted, done, in the queue or with a worker, in any
-- interleaving.
pub reach-kept :
    (n k f : ℕ) (p : ThreadPool)
    → Reach (new_pool n k) p
    → count f p.given ≡ count f p.done + count f p.tasks + sum_over (holds f) p.workers
unfolding shutdown
reach-kept n k f p here = new_pool-kept n k f
reach-kept n k f p (next {q} r (executes task)) = execute-kept f q task (reach-kept n k f q r)
reach-kept n k f p (next {q} r shuts_down) = reach-kept n k f q r
reach-kept n k f p (next {q} r (works b before w after q' w' i e h)) =
    omega (
      arith,
      reach-kept n k f q r,
      work-kept f q b w q' w' h,
      moves q before w after w' e (holds f),
    )

holds-le : (f : ℕ) (ws : List Worker) → sum_over (holds f) ws ≤ sum_over alive ws
unfolding sum_over holds alive
holds-le f [] = omega arith
holds-le f (at_test ∷ ws) = omega (arith, holds-le f ws)
holds-le f (getting ∷ ws) = omega (arith, holds-le f ws)
holds-le f (holding t ∷ ws) = ground (arith, holds-le f ws)
holds-le f (draining ∷ ws) = omega (arith, holds-le f ws)
holds-le f (drain_holding t ∷ ws) = ground (arith, holds-le f ws)
holds-le f (exited ∷ ws) = omega (arith, holds-le f ws)

alive-ended : (ws : List Worker) → sum_over alive ws + sum_over ended ws ≡ length ws
unfolding sum_over alive ended
alive-ended [] = omega arith
alive-ended (exited ∷ ws) = omega (arith, alive-ended ws)
alive-ended (at_test ∷ ws) = omega (arith, alive-ended ws)
alive-ended (_ ∷ ws) = omega (arith, alive-ended ws)

new_pool-given : (n k : ℕ) → (new_pool n k).given ≡ []
unfolding new_pool
new_pool-given n k = refl

-- A pool that may have workers has one as soon as a task was given.
abbrev IsStaffed : ThreadPool → Type 0
IsStaffed p = (p.given ≡ []) ⊎ (0 < length p.workers)

execute-IsStaffed :
    (p : ThreadPool) (task : ℕ)
    → IsPool p
    → 0 < p.core_size
    → IsStaffed p
    → IsStaffed (execute p task)
unfolding execute
execute-IsStaffed p task v h s =
    ground (arith, v.counted, alive-ended p.workers, length-append p.workers (at_test ∷ []))

work-given :
    (p : ThreadPool) (b : Bool) (w : Worker) (q : ThreadPool) (w' : Worker)
    → work p b w ≡ some (q, w')
    → q.given ≡ p.given
unfolding work
work-given p b at_test q w' h = ground arith
work-given p b _ q w' h = ground arith

reach-IsStaffed : (n k : ℕ) (p : ThreadPool) → 0 < n → Reach (new_pool n k) p → IsStaffed p
unfolding shutdown
reach-IsStaffed n k p h here = inl (new_pool-given n k)
reach-IsStaffed n k p h (next {q} r (executes task)) =
    execute-IsStaffed q task (Reach-IsPool (new_pool-IsPool n k) r)
      (omega (arith, reach-core r ∙ new_pool-core n k)) (reach-IsStaffed n k q h r)
reach-IsStaffed n k p h (next {q} r shuts_down) = reach-IsStaffed n k q h r
reach-IsStaffed n k p h (next {q} r (works b before w after q' w' i e k')) =
    elim (reach-IsStaffed n k q h r) [
      | inl none_given ↦ inl (work-given q b w q' w' k' ∙ none_given)
      | inr some_worker ↦ inr (omega (arith, length-append before (w' ∷ after)))
    ]

no_count : (ts : List ℕ) → ((f : ℕ) → count f ts ≡ 0) → ts ≡ []
no_count [] h = refl
no_count (t ∷ ts) h = absurd (ground (arith, h t))

all_gone :
    (n k : ℕ) (p : ThreadPool)
    → 0 < n
    → Reach (new_pool n k) p
    → sum_over alive p.workers ≡ 0
    → p.tasks ≡ []
all_gone n k p h r gone = elim (reach-IsStaffed n k p h r) [
  | inl none_given ↦
      no_count p.tasks (λ f. omega (arith, reach-kept n k f p r, ap (count f) none_given))
  | inr some_worker ↦
      (Reach-IsPool (new_pool-IsPool n k) r).drained (omega (arith, alive-ended p.workers))
]

-- When `shutdown` returns, in any interleaving, every task that the queue of a pool with a core
-- size above 0 accepted has been run, as often as it was accepted: the tasks that were still
-- waiting are not abandoned.
pub shutdown-drains :
    (n k f : ℕ) (p : ThreadPool)
    → 0 < n
    → Reach (new_pool n k) p
    → shutdown_returns p ≡ true
    → (p.tasks ≡ []) × (count f p.done ≡ count f p.given)
unfolding shutdown_returns
shutdown-drains n k f p h r over =
    let v = Reach-IsPool (new_pool-IsPool n k) r in
    let none_alive : sum_over alive p.workers ≡ 0 = ground (arith, v.counted) in
    let no_tasks = all_gone n k p h r none_alive in
    (no_tasks, omega (arith, reach-kept n k f p r, holds-le f p.workers, ap (count f) no_tasks))
