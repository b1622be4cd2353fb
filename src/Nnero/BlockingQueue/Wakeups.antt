-- ===== src/Nnero/BlockingQueue/Wakeups.antt =====
-- The notifications of nnero/bqueue.hpp.
use cpp_prac.Prelude.{
  ℕ, ◌+◌, ◌≤◌, ◌<◌, ◌≡◌, true, false, List, [], ◌∷◌, arith, length, length-append,
}
use cpp_prac.Nnero.BlockingQueue.{
  BlockingQueue, Call, polls, adds, puts, takes, offers, resumes_take, resumes_offer, wakes_all,
  wakes_taker, wakes_offerer, new_queue, step, run,
}

module _ {ℓ} {A : Type ℓ} where
  -- While a thread sleeps in `take` a woken thread is on its way for each element, and while one
  -- sleeps in `offer` one is on its way for each free place.
  pub record IsAwake (q : BlockingQueue A) : Type 0 where
    pub takers : 0 < q.sleeping_takers → length q.items ≤ q.woken_takers
    pub offerers : 0 < q.sleeping_offerers → q.max ≤ length q.items + q.woken_offerers

  -- The calling thread is not interrupted.
  abbrev pub IsCalm : Call A → Type 0
  IsCalm (takes b) = b ≡ false
  IsCalm (offers b a) = b ≡ false
  IsCalm (resumes_take b) = b ≡ false
  IsCalm (resumes_offer b a) = b ≡ false
  IsCalm _ = Unit

  abbrev pub AllCalm : List (Call A) → Type 0
  AllCalm [] = Unit
  AllCalm (c ∷ cs) = IsCalm c × AllCalm cs

  step-IsAwake : (q : BlockingQueue A) (c : Call A) → IsCalm c → IsAwake q → IsAwake (step q c).0
  unfolding step
  step-IsAwake q polls k h = ground arith
  step-IsAwake q (adds a) k h = ground (arith, length-append q.items (a ∷ []))
  step-IsAwake q (puts a) k h = ground (arith, length-append q.items (a ∷ []))
  step-IsAwake q (takes b) k h = ground arith
  step-IsAwake q (offers b a) k h = ground (arith, length-append q.items (a ∷ []))
  step-IsAwake q (resumes_take b) k h = ground arith
  step-IsAwake q (resumes_offer b a) k h = ground (arith, length-append q.items (a ∷ []))
  step-IsAwake q wakes_all k h = ground arith
  step-IsAwake q wakes_taker k h = ground arith
  step-IsAwake q wakes_offerer k h = ground arith

  run_lem : (q : BlockingQueue A) (cs : List (Call A)) → AllCalm cs → IsAwake q → IsAwake (run q cs)
  unfolding run
  run_lem q [] k h = h
  run_lem q (c ∷ cs) k h = run_lem (step q c).0 cs k.1 (step-IsAwake q c k.0 h)

  new-IsAwake : (max : ℕ) → IsAwake (new_queue {A = A} max)
  unfolding new_queue
  new-IsAwake max = ground arith

  -- No wake-up is lost: after any calls by threads that are not interrupted, on a new queue, while
  -- a thread sleeps in `take` there are at least as many woken takers as elements, and while one
  -- sleeps in `offer` at least as many woken offerers as free places.
  pub run-IsAwake : (max : ℕ) (cs : List (Call A)) → AllCalm cs → IsAwake (run (new_queue max) cs)
  run-IsAwake max cs k = run_lem (new_queue max) cs k (new-IsAwake max)

  -- An interrupt can lose one: where takers sleep and there are no more woken takers than elements,
  -- a woken taker that is interrupted leaves an element for which no thread is on its way.
  interrupt-loses :
      (q : BlockingQueue A)
      → 0 < q.sleeping_takers
      → 0 < q.woken_takers
      → q.woken_takers ≤ length q.items
      → ¬ IsAwake (step q (resumes_take true)).0
  unfolding step
  interrupt-loses q asleep woken few h = ground (arith, h.takers)
