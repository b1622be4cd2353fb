-- ===== src/Nnero/BlockingQueue/Fifo.antt =====
-- The order of the elements of nnero/bqueue.hpp.
use mathlib.Core.List.{append-nil, append_assoc}
use cpp_prac.Prelude.{◌≡◌, sym, ap, ◌∙◌, List, [], ◌∷◌, ◌++◌, arith}
use cpp_prac.Nnero.BlockingQueue.{
  BlockingQueue, Outcome, value, accepted, Call, polls, adds, puts, takes, offers, resumes_take,
  resumes_offer, wakes_all, wakes_taker, wakes_offerer, step, run,
}

module _ {ℓ} {A : Type ℓ} where
  -- What the call hands over, where it is accepted.
  offered : Call A → List A
  offered (adds a) = a ∷ []
  offered (puts a) = a ∷ []
  offered (offers _ a) = a ∷ []
  offered (resumes_offer _ a) = a ∷ []
  offered _ = []

  pub entering : Call A → Outcome A → List A
  entering c accepted = offered c
  entering c _ = []

  pub leaving : Outcome A → List A
  leaving (value a) = a ∷ []
  leaving _ = []

  -- The elements that a sequence of calls puts in and takes out, in order.
  pub entered : BlockingQueue A → List (Call A) → List A
  unfolding entering offered
  entered q [] = []
  entered q (c ∷ cs) = entering c (step q c).1 ++ entered (step q c).0 cs

  pub left : BlockingQueue A → List (Call A) → List A
  unfolding leaving
  left q [] = []
  left q (c ∷ cs) = leaving (step q c).1 ++ left (step q c).0 cs

  step_lem :
      (q : BlockingQueue A) (c : Call A)
      → q.items ++ entering c (step q c).1 ≡ leaving (step q c).1 ++ (step q c).0.items
  unfolding step entering leaving offered
  step_lem q polls = ground (arith, append-nil q.items)
  step_lem q (adds a) = ground (arith, append-nil q.items)
  step_lem q (puts a) = ground (arith, append-nil q.items)
  step_lem q (takes b) = ground (arith, append-nil q.items)
  step_lem q (offers b a) = ground (arith, append-nil q.items)
  step_lem q (resumes_take b) = ground (arith, append-nil q.items)
  step_lem q (resumes_offer b a) = ground (arith, append-nil q.items)
  step_lem q wakes_all = ground (arith, append-nil q.items)
  step_lem q wakes_taker = ground (arith, append-nil q.items)
  step_lem q wakes_offerer = ground (arith, append-nil q.items)

  -- First in, first out: whatever the calls, what was in the queue and then went in is what came
  -- out, followed by what is in the queue at the end.
  pub run_fifo :
      (q : BlockingQueue A) (cs : List (Call A))
      → q.items ++ entered q cs ≡ left q cs ++ (run q cs).items
  unfolding entered left run
  run_fifo q [] = append-nil q.items
  run_fifo q (c ∷ cs) =
      let e = entering c (step q c).1 in
      let l = leaving (step q c).1 in
      let q' = (step q c).0 in
      sym (append_assoc q.items e (entered q' cs))
      ∙ ap (λ k. k ++ entered q' cs) (step_lem q c)
      ∙ append_assoc l q'.items (entered q' cs)
      ∙ ap (λ k. l ++ k) (run_fifo q' cs)
      ∙ sym (append_assoc l (left q' cs) (run q' cs).items)
