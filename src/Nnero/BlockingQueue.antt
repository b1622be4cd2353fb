-- ===== src/Nnero/BlockingQueue.antt =====
-- nnero/bqueue.hpp: the class template `BlockingQueue`. Each method but
-- `wakeUpAll` holds `m_mutex` from its start to its end, or to a wait, so it is one step here.
-- `wakeUpAll` only notifies, without the mutex: it wakes the threads that sleep at that step, and a
-- thread that has tested its condition and does not sleep yet can miss it, which is not modelled. The two condition variables are kept as
-- counts of threads: those that sleep in a wait, and those that a notification has woken and that
-- have not run again. Whether the calling thread is interrupted is an argument of the waits.
mod Examples
pub mod Bounds
pub mod Fifo
pub mod Wakeups
use cpp_prac.Prelude.{
  ℕ, suc, ◌+◌, ◌-◌, ◌==◌, Bool, true, false, List, [], ◌∷◌, ◌++◌, if◌then◌else◌, ltb, length,
}

pub record BlockingQueue {ℓ} (A : Type ℓ) : Type ℓ where
  pub max : ℕ
  pub items : List A
  pub sleeping_takers : ℕ
  pub woken_takers : ℕ
  pub sleeping_offerers : ℕ
  pub woken_offerers : ℕ

-- How a method ends. `waits` is no end: the thread sleeps.
pub data Outcome {ℓ} (A : Type ℓ) : Type ℓ where
  value : A → Outcome A
  accepted : Outcome A
  refused : Outcome A
  thrown_full : Outcome A
  thrown_empty : Outcome A
  thrown_interrupted : Outcome A
  waits : Outcome A
  woken : Outcome A

module _ {ℓ} {A : Type ℓ} where
  -- `BlockingQueue(max)`; the default is 10000.
  unfoldable pub new_queue : ℕ → BlockingQueue A
  new_queue max = record {
    max = max;
    items = [];
    sleeping_takers = 0;
    woken_takers = 0;
    sleeping_offerers = 0;
    woken_offerers = 0;
  }

  unfoldable pub empty : BlockingQueue A → Bool
  empty q = elim q.items [ [] ↦ true | _ ∷ _ ↦ false ]

  unfoldable pub size : BlockingQueue A → ℕ
  size q = length q.items

  -- `m_empty_cond.notify_one()`
  unfoldable pub notify_taker : BlockingQueue A → BlockingQueue A
  notify_taker q =
      if ltb 0 q.sleeping_takers
      then record q { sleeping_takers = q.sleeping_takers - 1; woken_takers = q.woken_takers + 1 }
      else q

  -- `m_full_cond.notify_one()`
  unfoldable pub notify_offerer : BlockingQueue A → BlockingQueue A
  notify_offerer q =
      if ltb 0 q.sleeping_offerers
      then record q {
        sleeping_offerers = q.sleeping_offerers - 1;
        woken_offerers = q.woken_offerers + 1;
      }
      else q

  -- `front`, `pop` and the notification, where the queue is not empty.
  remove_front : BlockingQueue A → List A → Outcome A → BlockingQueue A × Outcome A
  remove_front q [] otherwise = (q, otherwise)
  remove_front q (a ∷ rest) otherwise = (notify_offerer (record q { items = rest }), value a)

  -- `push` and the notification.
  insert_back : BlockingQueue A → A → BlockingQueue A × Outcome A
  insert_back q a = (notify_taker (record q { items = q.items ++ a ∷ [] }), accepted)

  unfoldable pub poll : BlockingQueue A → BlockingQueue A × Outcome A
  unfolding remove_front notify_offerer
  poll q = remove_front q q.items thrown_empty

  unfoldable pub add : BlockingQueue A → A → BlockingQueue A × Outcome A
  unfolding insert_back notify_taker
  add q a = if length q.items == q.max then (q, refused) else insert_back q a

  unfoldable pub put : BlockingQueue A → A → BlockingQueue A × Outcome A
  unfolding insert_back notify_taker
  put q a = if length q.items == q.max then (q, thrown_full) else insert_back q a

  -- The test of the wait in `take`, with what follows it: an interrupted thread throws, whatever
  -- the queue holds.
  unfoldable pub take : Bool → BlockingQueue A → BlockingQueue A × Outcome A
  unfolding remove_front notify_offerer
  take interrupted q = if interrupted then (q, thrown_interrupted) else elim q.items [
    | [] ↦ (record q { sleeping_takers = q.sleeping_takers + 1 }, waits)
    | a ∷ rest ↦ remove_front q (a ∷ rest) waits
  ]

  -- The same in `offer`.
  unfoldable pub offer : Bool → BlockingQueue A → A → BlockingQueue A × Outcome A
  unfolding insert_back notify_taker
  offer interrupted q a =
      if interrupted
      then (q, thrown_interrupted)
      else if ltb (length q.items) q.max
      then insert_back q a
      else (record q { sleeping_offerers = q.sleeping_offerers + 1 }, waits)

  unfoldable pub wake_up_all : BlockingQueue A → BlockingQueue A × Outcome A
  wake_up_all q = (
    record q {
      sleeping_takers = 0;
      woken_takers = q.woken_takers + q.sleeping_takers;
      sleeping_offerers = 0;
      woken_offerers = q.woken_offerers + q.sleeping_offerers;
    },
    woken,
  )

-- What a thread does next to the queue. A resumed call is that of a woken thread; a spurious
-- wake-up comes from the system.
pub data Call {ℓ} (A : Type ℓ) : Type ℓ where
  polls : Call A
  adds : A → Call A
  puts : A → Call A
  takes : Bool → Call A
  offers : Bool → A → Call A
  resumes_take : Bool → Call A
  resumes_offer : Bool → A → Call A
  wakes_all : Call A
  wakes_taker : Call A
  wakes_offerer : Call A

module _ {ℓ} {A : Type ℓ} where
  unfoldable pub step : BlockingQueue A → Call A → BlockingQueue A × Outcome A
  unfolding poll add put take offer wake_up_all
  step q polls = poll q
  step q (adds a) = add q a
  step q (puts a) = put q a
  step q (takes interrupted) = take interrupted q
  step q (offers interrupted a) = offer interrupted q a
  step q (resumes_take interrupted) =
      if ltb 0 q.woken_takers
      then take interrupted (record q { woken_takers = q.woken_takers - 1 })
      else (q, waits)
  step q (resumes_offer interrupted a) =
      if ltb 0 q.woken_offerers
      then offer interrupted (record q { woken_offerers = q.woken_offerers - 1 }) a
      else (q, waits)
  step q wakes_all = wake_up_all q
  step q wakes_taker = (notify_taker q, woken)
  step q wakes_offerer = (notify_offerer q, woken)

  unfoldable pub run : BlockingQueue A → List (Call A) → BlockingQueue A
  run q [] = q
  run q (c ∷ cs) = run (step q c).0 cs
