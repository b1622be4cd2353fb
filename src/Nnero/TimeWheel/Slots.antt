-- ===== src/Nnero/TimeWheel/Slots.antt =====
-- How long the tasks of nnero/time_wheel.cpp wait in their slots.
use cpp_prac.Prelude.{
  ℕ, zero, suc, ◌+◌, ◌-◌, ◌*◌, ◌%◌, ◌≤◌, ◌<◌, ◌≡◌, ◌≢◌, refl, some, List, [], ◌∷◌, ◌++◌, arith,
  ◌==◌, ◌&&◌, if◌then◌else◌, leb, ltb, length, count, get_elem?, get_elem?-bound, set,
}
use mathlib.Core.Option.{some-injective}
use cpp_prac.Nnero.TimeWheel.{TimeTask, check_can_run, due, remaining}

-- Whether a task whose slot is `dist` ticks away runs as `f` in the next `k` ticks.
abbrev pub runs : ℕ → ℕ → ℕ → TimeTask → ℕ
runs f k dist t = if (t.func == f) && ltb (dist + 10 * t.rotation) k then 1 else 0

pub slot_pending : ℕ → ℕ → ℕ → List TimeTask → ℕ
slot_pending f k dist [] = 0
slot_pending f k dist (t ∷ ts) = runs f k dist t + slot_pending f k dist ts

-- The distance from the slot `cur`, which is visited next, to the slot `i`.
abbrev pub distance : ℕ → ℕ → ℕ
distance cur i = (i + 10 - cur) % 10

-- All slots, from number `i` on.
pub box_pending : ℕ → ℕ → ℕ → ℕ → List (List TimeTask) → ℕ
box_pending f k cur i [] = 0
box_pending f k cur i (ts ∷ box) =
    slot_pending f k (distance cur i) ts + box_pending f k cur (suc i) box

slot_pending-closer :
    (f k dist : ℕ) (ts : List TimeTask)
    → 0 < dist
    → slot_pending f k (dist - 1) ts ≡ slot_pending f (k + 1) dist ts
unfolding slot_pending
slot_pending-closer f k dist [] h = refl
slot_pending-closer f k dist (t ∷ ts) h = ground (arith, slot_pending-closer f k dist ts h)

slot_pending-visit :
    (f k : ℕ) (ts : List TimeTask)
    → slot_pending f k 9 (remaining ts) + count f (due ts) ≡ slot_pending f (k + 1) 0 ts
unfolding slot_pending remaining due check_can_run
slot_pending-visit f k [] = refl
slot_pending-visit f k (t ∷ ts) = ground (arith, slot_pending-visit f k ts)

pub slot_pending-append :
    (f k dist : ℕ) (ts : List TimeTask) (t : TimeTask)
    → slot_pending f k dist (ts ++ t ∷ []) ≡ slot_pending f k dist ts + runs f k dist t
unfolding slot_pending
slot_pending-append f k dist [] t = ground arith
slot_pending-append f k dist (x ∷ ts) t = omega (arith, slot_pending-append f k dist ts t)

-- The index after a tick.
abbrev pub next : ℕ → ℕ
next cur = if leb 10 (cur + 1) then 0 else cur + 1

next-distance :
    (cur i : ℕ)
    → cur < 10
    → i < 10
    → i ≢ cur
    → (0 < distance cur i) × (distance (next cur) i ≡ distance cur i - 1)
next-distance cur i h k ne = ground arith

next_far : (cur : ℕ) → cur < 10 → distance (next cur) cur ≡ 9
next_far cur h = ground arith

distance_self : (cur : ℕ) → distance cur cur ≡ 0
distance_self cur = omega arith

box_pending-behind :
    (f k cur i : ℕ) (box : List (List TimeTask))
    → cur < i
    → i + length box ≤ 10
    → box_pending f k (next cur) i box ≡ box_pending f (k + 1) cur i box
unfolding box_pending
box_pending-behind f k cur i [] h b = refl
box_pending-behind f k cur i (ts ∷ box) h b =
    let (far, step) = next-distance cur i (omega arith) (omega arith) (omega arith) in
    rw step (
      omega (
        arith,
        slot_pending-closer f k (distance cur i) ts far,
        box_pending-behind f k cur (suc i) box (omega arith) (omega arith),
      ))

visit_here :
    (f k cur : ℕ) (ts : List TimeTask) (box : List (List TimeTask))
    → cur < 10
    → suc cur + length box ≤ 10
    → slot_pending f k (distance (next cur) cur) (remaining ts)
        + box_pending f k (next cur) (suc cur) box
        + count f (due ts)
      ≡ slot_pending f (k + 1) (distance cur cur) ts + box_pending f (k + 1) cur (suc cur) box
visit_here f k cur ts box h b =
    rw (next_far cur h, distance_self cur)
      (omega (
        arith,
        slot_pending-visit f k ts,
        box_pending-behind f k cur (suc cur) box (omega arith) b,
      ))

pub box_pending-visit :
    (f k cur i p : ℕ) (box : List (List TimeTask)) (tasks : List TimeTask)
    → i + p ≡ cur
    → i + length box ≤ 10
    → get_elem? box p ≡ some tasks
    → box_pending f k (next cur) i (set box p (remaining tasks)) + count f (due tasks)
      ≡ box_pending f (k + 1) cur i box
unfolding box_pending
box_pending-visit f k cur i p [] tasks e b g = absurd (ground arith)
box_pending-visit f k cur i zero (ts ∷ box) tasks e b g =
    let at : i ≡ cur = omega arith in
    rw (at, ← some-injective ts tasks g) (visit_here f k cur ts box (omega arith) (omega arith))
box_pending-visit f k cur i (suc p) (ts ∷ box) tasks e b g =
    let (far, step) =
      next-distance cur i (omega (arith, get_elem?-bound box p tasks g)) (omega arith)
        (omega arith) in
    rw step (
      omega (
        arith,
        slot_pending-closer f k (distance cur i) ts far,
        box_pending-visit f k cur (suc i) p box tasks (omega arith) (omega arith) g,
      ))

pub box_pending-set :
    (f k cur i p s : ℕ) (box : List (List TimeTask)) (tasks : List TimeTask) (t : TimeTask)
    → i + p ≡ s
    → get_elem? box p ≡ some tasks
    → box_pending f k cur i (set box p (tasks ++ t ∷ []))
      ≡ box_pending f k cur i box + runs f k (distance cur s) t
unfolding box_pending
box_pending-set f k cur i p s [] tasks t e g = absurd (ground arith)
box_pending-set f k cur i zero s (ts ∷ box) tasks t e g =
    let at : i ≡ s = omega arith in
    rw (at, ← some-injective ts tasks g)
      (omega (arith, slot_pending-append f k (distance cur s) ts t))
box_pending-set f k cur i (suc p) s (ts ∷ box) tasks t e g =
    omega (arith, box_pending-set f k cur (suc i) p s box tasks t (omega arith) g)

slot_pending-zero : (f dist : ℕ) (ts : List TimeTask) → slot_pending f 0 dist ts ≡ 0
unfolding slot_pending
slot_pending-zero f dist [] = refl
slot_pending-zero f dist (t ∷ ts) = ground (arith, slot_pending-zero f dist ts)

pub box_pending-zero : (f cur i : ℕ) (box : List (List TimeTask)) → box_pending f 0 cur i box ≡ 0
unfolding box_pending
box_pending-zero f cur i [] = refl
box_pending-zero f cur i (ts ∷ box) =
    omega (arith, slot_pending-zero f (distance cur i) ts, box_pending-zero f cur (suc i) box)
