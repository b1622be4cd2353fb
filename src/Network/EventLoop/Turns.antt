-- ===== src/Network/EventLoop/Turns.antt =====
-- How the loop of network/event_loop.cpp ends.
use cpp_prac.Prelude.{
  ℕ, ◌==◌, true, false, ◌≡◌, ◌≢◌, ◌⊎◌, ◌∙◌, inl, inr, refl, Bool-cases, List, [], ◌∷◌, arith,
}
use cpp_prac.Network.TcpSocket.{Ending, returned, thrown, aborted}
use cpp_prac.Network.TcpServer.{Callbacks}
use cpp_prac.Network.EventLoop.{
  EventLoop, Turn, Looping, ended, already_looping, other_thread, running, failed, quit, turn,
  loop_turns, loop,
}

-- How the `while` ends: with `m_quit` set and `m_looping` reset, or it still runs and was not told to
-- quit, or an exception has left it and `m_looping` set.
abbrev pub IsOutcome : EventLoop × Looping → Type 0
IsOutcome (l, ended) = (l.looping ≡ false) × (l.quit_flag ≡ true)
IsOutcome (l, running) = (l.looping ≡ true) × (l.quit_flag ≡ false)
IsOutcome (l, failed x) = l.looping ≡ true
IsOutcome (l, already_looping) = ⊥
IsOutcome (l, other_thread) = ⊥

turn-looping : (cbs : Callbacks) (l : EventLoop) (t : Turn) → (turn cbs l t).0.looping ≡ l.looping
unfolding turn quit
turn-looping cbs l t = ground arith

go_on-IsOutcome :
    (x : Ending) (l : EventLoop) (rest : EventLoop × Looping)
    → l.looping ≡ true
    → IsOutcome rest
    → IsOutcome (elim x [ returned ↦ rest | y ↦ (l, failed y) ])
go_on-IsOutcome returned l rest h k = k
go_on-IsOutcome (thrown e) l rest h k = h
go_on-IsOutcome (aborted e) l rest h k = h

turns-IsOutcome :
    (cbs : Callbacks) (l : EventLoop) (ts : List Turn)
    → l.looping ≡ true
    → IsOutcome (loop_turns cbs l ts)
unfolding loop_turns
turns-IsOutcome cbs l [] h = elim (Bool-cases l.quit_flag) [
  | inl e ↦ simp e (refl, refl)
  | inr e ↦ simp e (h, refl)
]
turns-IsOutcome cbs l (t ∷ ts) h =
    let l' = (turn cbs l t).0 in
    let h' = turn-looping cbs l t ∙ h in
    elim (Bool-cases l.quit_flag) [
      | inl e ↦ simp e (refl, refl)
      | inr e ↦ simp e (
          go_on-IsOutcome (turn cbs l t).1 l' (loop_turns cbs l' ts) h'
            (turns-IsOutcome cbs l' ts h'))
    ]

-- `loop` returns at once where it loops already. Else it throws in a thread that is not its own and
-- changes nothing. Else it goes through its `while`, which returns only with `m_quit` set, and resets
-- `m_looping` then; while it runs, and when an exception of the server has left it, `m_looping` is set.
pub loop-IsOutcome :
    (cbs : Callbacks) (l : EventLoop) (thread : ℕ) (ts : List Turn)
    → ((l.looping ≡ true) × (loop cbs l thread ts ≡ (l, already_looping)))
      ⊎ ((l.looping ≡ false) × (l.thread_id ≢ thread) × (loop cbs l thread ts ≡ (l, other_thread)))
      ⊎ ((l.looping ≡ false) × (l.thread_id ≡ thread) × IsOutcome (loop cbs l thread ts))
unfolding loop
loop-IsOutcome cbs l thread ts = elim (Bool-cases l.looping) [
  | inl e ↦ inl (e, simp e)
  | inr e ↦ elim (Bool-cases (l.thread_id == thread)) [
    | inl f ↦ inr (
        inr (
          e,
          ground arith,
          simp (e, f) (turns-IsOutcome cbs (record l { looping = true }) ts refl),
        ))
    | inr f ↦ inr (inl (e, ground arith, simp (e, f)))
  ]
]

outcome_looping :
    (o : EventLoop × Looping) (x : Ending) → IsOutcome o → o.1 ≡ failed x → o.0.looping ≡ true
outcome_looping (l, failed y) x v h = v
outcome_looping (l, ended) x v h = ground arith
outcome_looping (l, running) x v h = v.0
outcome_looping (l, already_looping) x v h = absurd v
outcome_looping (l, other_thread) x v h = absurd v

failed-looping :
    (cbs : Callbacks) (l : EventLoop) (thread : ℕ) (ts : List Turn) (x : Ending)
    → (loop cbs l thread ts).1 ≡ failed x
    → (loop cbs l thread ts).0.looping ≡ true
failed-looping cbs l thread ts x h = elim (loop-IsOutcome cbs l thread ts) [
  | inl (e, same) ↦ grind (arith, same, h)
  | inr (inl (e, ne, same)) ↦ grind (arith, same, h)
  | inr (inr (e, own, v)) ↦ outcome_looping (loop cbs l thread ts) x v h
]

loop-again :
    (cbs : Callbacks) (l : EventLoop) (thread : ℕ) (ts : List Turn)
    → l.looping ≡ true
    → loop cbs l thread ts ≡ (l, already_looping)
unfolding loop
loop-again cbs l thread ts h = simp h

-- When an exception of the server, such as that of a failed accept, has ended `loop`, every later
-- call of `loop` on the same object, in any thread, returns at once and handles no event.
pub loop-failed :
    (cbs : Callbacks) (l : EventLoop) (thread thread' : ℕ) (ts ts' : List Turn) (x : Ending)
    → (loop cbs l thread ts).1 ≡ failed x
    → let l' = (loop cbs l thread ts).0 in loop cbs l' thread' ts' ≡ (l', already_looping)
loop-failed cbs l thread thread' ts ts' x h =
    loop-again cbs (loop cbs l thread ts).0 thread' ts' (failed-looping cbs l thread ts x h)
