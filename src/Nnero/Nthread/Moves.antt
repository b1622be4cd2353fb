-- ===== src/Nnero/Nthread/Moves.antt =====
-- Who holds a thread of nnero/nthread.cpp after moves, and what an interrupt does.
use cpp_prac.Prelude.{
  ℕ, Bool, true, false, Option, none, some, List, [], ◌∷◌, ◌==◌, if◌then◌else◌, ◌≡◌, refl, arith,
}
use cpp_prac.Nnero.Logging.{Text}
use cpp_prac.Nnero.Nthread.{
  InterruptFlag, Flags, put_flag, Nthread, Effect, done, interrupted, undefined, terminated,
  not_joinable, default_name, interrupt_message, interrupt_point, new_flag, set_name, start_thread,
  joinable, move_assign, move_construct, is_interrupted, interrupt, join,
}

-- The thread is passed on from object to object, by the move constructor; what the memories of the new
-- objects have at first is given.
unfoldable pub pass_on : List (Option ℕ) → Nthread → Flags → Effect Nthread
pass_on [] t w = done t w
pass_on (memory ∷ ms) t w = elim (move_construct memory t w) [
  | done objects w' ↦ pass_on ms objects.0 w'
  | interrupted m ↦ interrupted m
  | undefined ↦ undefined
  | terminated ↦ terminated
  | not_joinable ↦ not_joinable
]

-- `t` holds the thread `id`.
pub record Holds (id : ℕ) (t : Nthread) : Type 0 where
  pub points : t.interrupt_flag ≡ some id
  pub owns : t.thread ≡ some id

pass_on-Holds :
    (id : ℕ) (ms : List (Option ℕ)) (t : Nthread) (w : Flags)
    → Holds id t
    → (t' : Nthread) × (pass_on ms t w ≡ done t' w) × Holds id t'
unfolding pass_on move_construct move_assign joinable
pass_on-Holds id [] t w v = (t, refl, v)
pass_on-Holds id (memory ∷ ms) t w v =
    pass_on-Holds id ms
      (record { interrupt_flag = t.interrupt_flag; name = default_name; thread = t.thread }) w
      (record { points = v.points; owns = v.owns })

-- What can be done with a thread that runs, by the object that holds it.
abbrev pub Reaches : ℕ → Text → Nthread → Flags → Type 0
Reaches id name t w =
    (w' : Flags) × (interrupt t w ≡ done tt w')
    × (is_interrupted t w' ≡ done true w')
    × (interrupt_point id w' ≡ interrupted (interrupt_message name))
    × ((j : ℕ) → (j == id) ≡ false → w' j ≡ w j)
    × (join t w' ≡ done (record t { thread = none }) (put_flag w' id none))
    × (interrupt (record t { thread = none }) (put_flag w' id none) ≡ undefined)

put_self : (w : Flags) (id : ℕ) (f : Option InterruptFlag) → put_flag w id f id ≡ f
put_self w id f = ground arith

put_other :
    (w : Flags) (id j : ℕ) (f : Option InterruptFlag) → (j == id) ≡ false → put_flag w id f j ≡ w j
put_other w id j f ne = rw ne refl

module _ (id : ℕ) (t : Nthread) (w : Flags) (v : Holds id t) where
  interrupt_set :
      (b : Bool) (name : Text)
      → w id ≡ some (record { flag = b; name = name })
      → interrupt t w
        ≡ done tt (if b then w else put_flag w id (some (record { flag = true; name = name })))
  unfolding interrupt
  interrupt_set b name e = rw (interrupt, v.points, e) refl

  is_interrupted_set : (f : InterruptFlag) → w id ≡ some f → is_interrupted t w ≡ done f.flag w
  unfolding is_interrupted
  is_interrupted_set f e = rw (is_interrupted, v.points, e) refl

  join_waits : join t w ≡ done (record t { thread = none }) (put_flag w id none)
  unfolding join
  join_waits = rw v.owns refl

  interrupt_point_set :
      (name : Text)
      → w id ≡ some (record { flag = true; name = name })
      → interrupt_point id w ≡ interrupted (interrupt_message name)
  unfolding interrupt_point
  interrupt_point_set name e = rw (interrupt_point, e) refl

-- The object keeps its pointer to the flag when the thread is joined.
Holds-points :
    (id : ℕ) (t : Nthread) (w : Flags)
    → t.interrupt_flag ≡ some id
    → w id ≡ none
    → interrupt t w ≡ undefined
unfolding interrupt
Holds-points id t w e gone = rw (interrupt, e, gone) refl

started-Reaches :
    (id : ℕ) (name : Text) (t : Nthread) (w : Flags)
    → Holds id t
    → w id ≡ some (record { flag = false; name = name })
    → Reaches id name t w
started-Reaches id name t w v e =
    let f : Option InterruptFlag = some (record { flag = true; name = name }) in
    let w' : Flags = put_flag w id f in
    (
      w',
      interrupt_set id t w v false name e,
      is_interrupted_set id t w' v (record { flag = true; name = name }) (put_self w id f),
      interrupt_point_set id t w' v name (put_self w id f),
      (λ j ne. put_other w id j f ne),
      join_waits id t w' v,
      Holds-points id (record t { thread = none }) (put_flag w' id none) v.points
          (put_self w' id none),
    )

-- The object that a thread was moved from, and the one it was moved to.
abbrev pub Moved : Option ℕ → Nthread → Flags → Type 0
Moved memory t w =
    (new : Nthread) × (old : Nthread) × (move_construct memory t w ≡ done (new, old) w)
    × (new.name ≡ default_name)
    × (joinable old ≡ false)
    × ((w' : Flags)
        → (interrupt old w' ≡ undefined)
          × (is_interrupted old w' ≡ undefined)
          × (join old w' ≡ done old w'))

moved : (memory : Option ℕ) (t : Nthread) (w : Flags) → Moved memory t w
unfolding move_construct move_assign joinable interrupt is_interrupted join
moved memory t w = (
  record { interrupt_flag = t.interrupt_flag; name = default_name; thread = t.thread },
  record t { interrupt_flag = none; thread = none },
  refl,
  refl,
  refl,
  λ w'. (refl, refl, refl),
)

-- The calls about the flag of a thread that has ended.
abbrev pub Lost : ℕ → Nthread → Type 0
Lost id t =
    (w : Flags)
    → (interrupt t (put_flag w id none) ≡ undefined)
      × (is_interrupted t (put_flag w id none) ≡ undefined)

ended-Lost : (id : ℕ) (t : Nthread) → Holds id t → Lost id t
unfolding is_interrupted
ended-Lost id t v w = (
  Holds-points id t (put_flag w id none) v.points (put_self w id none),
  rw (is_interrupted, v.points, put_self w id none) refl,
)

start_early : (id : ℕ) (name : Text) (w : Flags) → start_thread true id name w ≡ undefined
unfolding start_thread set_name
start_early id name w =
    rw (start_thread, set_name, put_self (put_flag w id (some new_flag)) id none) refl

start_late :
    (id : ℕ) (name : Text) (w : Flags)
    → start_thread false id name w
      ≡ done
          (record { interrupt_flag = some id; name = name; thread = some id })
          (put_flag (put_flag w id (some new_flag)) id (some (record new_flag { name = name })))
unfolding start_thread set_name
start_late id name w = rw (start_thread, set_name, put_self w id (some new_flag)) refl

-- The constructor of a thread that ends before `setName` writes through a pointer to a flag that is
-- gone. Else the thread is started, and passed on by the move constructor any number of times. While it
-- still runs and has not been interrupted, whatever the other threads do, the object that holds it
-- reaches it: `interrupt` sets its flag and no other, `interruptPoint` in that thread then throws with
-- the name that the thread was started with, and `join` returns with the thread ended. When it has
-- ended, by `join` or by itself, `interrupt` and `isInterrupted` follow a pointer to a flag that is
-- gone. Each move leaves an object that is not joinable, on which `join` does nothing and the calls
-- about the flag follow a null pointer, and the new object has the name of the class.
pub pass_on-Reaches :
    (id : ℕ) (name : Text) (ms : List (Option ℕ)) (w : Flags)
    → (start_thread true id name w ≡ undefined)
      × (t t' : Nthread) × (w' : Flags) × (start_thread false id name w ≡ done t w')
      × (w' id ≡ some (record { flag = false; name = name }))
      × (pass_on ms t w' ≡ done t' w')
      × ((v : Flags)
          → Reaches id name t' (put_flag v id (some (record { flag = false; name = name }))))
      × Lost id t'
      × ((memory : Option ℕ) (v : Flags) → Moved memory t' v)
pass_on-Reaches id name ms w =
    let f : Option InterruptFlag = some (record { flag = false; name = name }) in
    let w' : Flags = put_flag (put_flag w id (some new_flag)) id f in
    let t : Nthread = record { interrupt_flag = some id; name = name; thread = some id } in
    let (t', run, held) = pass_on-Holds id ms t w' (record { points = refl; owns = refl }) in
    (
      start_early id name w,
      t,
      t',
      w',
      start_late id name w,
      put_self (put_flag w id (some new_flag)) id f,
      run,
      (λ v. started-Reaches id name t' (put_flag v id f) held (put_self v id f)),
      ended-Lost id t' held,
      λ memory v. moved memory t' v,
    )
