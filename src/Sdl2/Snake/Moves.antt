-- ===== src/Sdl2/Snake/Moves.antt =====
-- Where the cube of sdl2/snake.cpp and sdl2/move_cure.cpp goes, and when the programs end.
use cpp_prac.Prelude.{
  ℕ, ◌+◌, ◌*◌, ◌<◌, Bool, true, false, ◌||◌, List, [], ◌∷◌, ltb, if◌then◌else◌, ◌≡◌, refl, ap, sym,
  length, ◌∙◌, zero, suc, inl, inr, Bool-cases, arith,
}
use cpp_prac.Prelude.Int.{ℤ, pos}
use cpp_prac.Sdl2.Snake.{
  Key, right, left, up, down, q, other_key, Input, quits, key_down, other_event, Game, new_game,
  forth, back, press, handle, poll_events, play, snake, move_cure,
}

-- A multiple of 80 below the size of the screen.
abbrev pub IsOn : ℕ → ℤ → Type 0
IsOn size x = (i : ℕ) × (x ≡ pos (80 * i)) × (80 * i < size)

abbrev pub IsPlace : ℕ → ℕ → ℤ × ℤ → Type 0
IsPlace width height p = IsOn width p.0 × IsOn height p.1

abbrev pub AllPlaces : ℕ → ℕ → List (ℤ × ℤ) → Type 0
AllPlaces width height [] = Unit
AllPlaces width height (p ∷ ps) = IsPlace width height p × AllPlaces width height ps

forth_goes :
    (size i : ℕ) → ltb (80 * i + 80) size ≡ true → forth size (pos (80 * i)) ≡ pos (80 * suc i)
forth_goes size i h = ground arith

forth_stays :
    (size i : ℕ) → ltb (80 * i + 80) size ≡ false → forth size (pos (80 * i)) ≡ pos (80 * i)
forth_stays size i h = ground arith

back_goes : (i : ℕ) → back (pos (80 * suc i)) ≡ pos (80 * i)
back_goes i = ground arith

forth-IsOn : (size : ℕ) (x : ℤ) → IsOn size x → IsOn size (forth size x)
forth-IsOn size x (i, e, low) = elim (Bool-cases (ltb (80 * i + 80) size)) [
  | inl room ↦ (suc i, ap (forth size) e ∙ forth_goes size i room, ground arith)
  | inr no_room ↦ (i, ap (forth size) e ∙ forth_stays size i no_room, low)
]

back-IsOn : (size : ℕ) (x : ℤ) → IsOn size x → IsOn size (back x)
back-IsOn size x (zero, e, low) = (0, ap back e, low)
back-IsOn size x (suc i, e, low) = (i, ap back e ∙ back_goes i, omega arith)

AllPlaces-if :
    (width height : ℕ) (b : Bool) (ps : List (ℤ × ℤ))
    → AllPlaces width height ps
    → AllPlaces width height (if b then [] else ps)
AllPlaces-if width height true ps v = tt
AllPlaces-if width height false ps v = v

-- Whether a batch has an event that ends the program.
abbrev pub ends : List Input → Bool
ends [] = false
ends (quits ∷ es) = true
ends (key_down q ∷ es) = true
ends (key_down right ∷ es) = ends es
ends (key_down left ∷ es) = ends es
ends (key_down up ∷ es) = ends es
ends (key_down down ∷ es) = ends es
ends (key_down other_key ∷ es) = ends es
ends (other_event ∷ es) = ends es

-- The frames up to the end of the program.
abbrev pub frames : List (List Input) → ℕ
frames [] = 0
frames (es ∷ batches) = let rest = frames batches in if ends es then 1 else suc rest

module _ (width height : ℕ) where
  press-IsPlace :
      (k : Key) (g : Game)
      → IsPlace width height (g.x, g.y)
      → let g' = press width height k g in IsPlace width height (g'.x, g'.y)
  unfolding press
  press-IsPlace right g (on_x, on_y) = (forth-IsOn width g.x on_x, on_y)
  press-IsPlace left g (on_x, on_y) = (back-IsOn width g.x on_x, on_y)
  press-IsPlace up g (on_x, on_y) = (on_x, back-IsOn height g.y on_y)
  press-IsPlace down g (on_x, on_y) = (on_x, forth-IsOn height g.y on_y)
  press-IsPlace q g v = v
  press-IsPlace other_key g v = v

  handle-IsPlace :
      (e : Input) (g : Game)
      → IsPlace width height (g.x, g.y)
      → let g' = handle width height e g in IsPlace width height (g'.x, g'.y)
  unfolding handle
  handle-IsPlace quits g v = v
  handle-IsPlace (key_down k) g v = press-IsPlace k g v
  handle-IsPlace other_event g v = v

  poll_events-IsPlace :
      (es : List Input) (g : Game)
      → IsPlace width height (g.x, g.y)
      → let g' = poll_events width height es g in IsPlace width height (g'.x, g'.y)
  unfolding poll_events
  poll_events-IsPlace [] g v = v
  poll_events-IsPlace (e ∷ es) g v =
      poll_events-IsPlace es (handle width height e g) (handle-IsPlace e g v)

  play-AllPlaces :
      (batches : List (List Input)) (g : Game)
      → IsPlace width height (g.x, g.y)
      → AllPlaces width height (play width height g batches)
  unfolding play
  play-AllPlaces [] g v = tt
  play-AllPlaces (es ∷ batches) g v =
      let next = poll_events-IsPlace es g v in
      AllPlaces-if width height g.quit
        (((poll_events width height es g).x, (poll_events width height es g).y)
          ∷ play width height (poll_events width height es g) batches)
        (next, play-AllPlaces batches (poll_events width height es g) next)

  handle-ends :
      (e : Input) (es : List Input) (g : Game)
      → (g.quit || ends (e ∷ es)) ≡ ((handle width height e g).quit || ends es)
  unfolding handle press
  handle-ends quits es g = ground arith
  handle-ends (key_down right) es g = refl
  handle-ends (key_down left) es g = refl
  handle-ends (key_down up) es g = refl
  handle-ends (key_down down) es g = refl
  handle-ends (key_down q) es g = ground arith
  handle-ends (key_down other_key) es g = refl
  handle-ends other_event es g = refl

  poll_events-ends :
      (es : List Input) (g : Game) → (poll_events width height es g).quit ≡ (g.quit || ends es)
  unfolding poll_events
  poll_events-ends [] g = ground arith
  poll_events-ends (e ∷ es) g =
      poll_events-ends es (handle width height e g) ∙ sym (handle-ends e es g)

  play-frames :
      (batches : List (List Input)) (g : Game)
      → length (play width height g batches) ≡ (if g.quit then 0 else frames batches)
  unfolding play
  play-frames [] g = ground arith
  play-frames (es ∷ batches) g =
      ground (arith, play-frames batches (poll_events width height es g), poll_events-ends es g)

-- Whatever the player does, every frame of `snake` has the cube at multiples of 80, from 0 on, with
-- its left and its upper edge on the screen of 800 by 600, and every frame of `move_cure` on that of
-- 640 by 480; both draw a frame for each batch of events up to the first one that ends the program,
-- and none after that.
pub programs-AllPlaces :
    (batches : List (List Input))
    → AllPlaces 800 600 (snake batches)
      × AllPlaces 640 480 (move_cure batches)
      × (length (snake batches) ≡ frames batches)
      × (length (move_cure batches) ≡ frames batches)
unfolding snake move_cure
programs-AllPlaces batches = (
  play-AllPlaces 800 600 batches new_game ((0, refl, omega arith), (0, refl, omega arith)),
  play-AllPlaces 640 480 batches new_game ((0, refl, omega arith), (0, refl, omega arith)),
  play-frames 800 600 batches new_game,
  play-frames 640 480 batches new_game,
)
