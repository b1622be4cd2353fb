-- ===== src/Nnero/BlockingQueue/Bounds.antt =====
-- The capacity of nnero/bqueue.hpp.
use cpp_prac.Prelude.{
  ℕ, ◌≤◌, ◌<◌, ◌≡◌, ◌⊎◌, inl, inr, refl, ◌∙◌, true, false, List, [], ◌∷◌, ◌++◌, arith, Bool-cases,
  ltb, ◌==◌, length, length-append,
}
use native.Mathlib.Decide.{dec_lt}
use cpp_prac.Nnero.BlockingQueue.{
  BlockingQueue, Call, polls, adds, puts, takes, offers, resumes_take, resumes_offer, wakes_all,
  wakes_taker, wakes_offerer, refused, thrown_full, new_queue, add, put, notify_taker, step, run,
}

module _ {ℓ} {A : Type ℓ} where
  abbrev pub IsBounded : BlockingQueue A → Type 0
  IsBounded q = length q.items ≤ q.max

  -- Every call keeps the number of elements within the capacity, and the capacity as it was.
  pub step-IsBounded :
      (q : BlockingQueue A) (c : Call A)
      → IsBounded q
      → IsBounded (step q c).0 × ((step q c).0.max ≡ q.max)
  unfolding step
  step-IsBounded q polls h = ground arith
  step-IsBounded q (adds a) h = ground (arith, length-append q.items (a ∷ []))
  step-IsBounded q (puts a) h = ground (arith, length-append q.items (a ∷ []))
  step-IsBounded q (takes b) h = ground arith
  step-IsBounded q (offers b a) h = ground (arith, length-append q.items (a ∷ []))
  step-IsBounded q (resumes_take b) h = ground arith
  step-IsBounded q (resumes_offer b a) h = ground (arith, length-append q.items (a ∷ []))
  step-IsBounded q wakes_all h = ground arith
  step-IsBounded q wakes_taker h = ground arith
  step-IsBounded q wakes_offerer h = ground arith

  run_lem :
      (q : BlockingQueue A) (cs : List (Call A))
      → IsBounded q
      → IsBounded (run q cs) × ((run q cs).max ≡ q.max)
  unfolding run
  run_lem q [] h = (h, refl)
  run_lem q (c ∷ cs) h =
      let (kept, same) = step-IsBounded q c h in
      let (bounded, still) = run_lem (step q c).0 cs kept in (bounded, still ∙ same)

  -- After any calls on a new queue the queue holds no more elements than the capacity that the
  -- constructor was given.
  pub run-IsBounded : (max : ℕ) (cs : List (Call A)) → length (run (new_queue max) cs).items ≤ max
  run-IsBounded max cs =
      let (bounded, same) = run_lem (new_queue max) cs (new-IsBounded max) in
      omega (arith, same ∙ new_max max)
    where
      new_max : (m : ℕ) → (new_queue {A = A} m).max ≡ m
      new_max m = unfold new_queue in refl

      new-IsBounded : (m : ℕ) → IsBounded (new_queue {A = A} m)
      new-IsBounded m = unfold new_queue in omega arith

  notify-items : (q : BlockingQueue A) → (notify_taker q).items ≡ q.items
  unfolding notify_taker
  notify-items q = elim (Bool-cases (ltb 0 q.sleeping_takers)) [ inl h ↦ rw h | inr h ↦ rw h ]

  -- Within the capacity, `add` and `put` insert exactly when there is room; a full queue makes
  -- `add` return false and `put` throw, and neither changes it.
  pub full_iff :
      (q : BlockingQueue A) (a : A)
      → IsBounded q
      → ((length q.items ≡ q.max) × (add q a ≡ (q, refused)) × (put q a ≡ (q, thrown_full)))
        ⊎ ((length q.items < q.max) × (add q a ≡ put q a) × ((add q a).0.items ≡ q.items ++ a ∷ []))
  unfolding add put
  full_iff q a h = elim (dec_lt (length q.items) q.max) [
    | yes room ↦
        let open_test : (length q.items == q.max) ≡ false = ground arith in
        inr (room, rw open_test, rw open_test (notify-items _))
    | no full ↦
        let full_test : (length q.items == q.max) ≡ true = ground arith in
        inl (omega arith, rw full_test, rw full_test)
  ]
