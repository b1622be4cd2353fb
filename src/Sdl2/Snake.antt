-- ===== src/Sdl2/Snake.antt =====
-- The loops of sdl2/snake.cpp and sdl2/move_cure.cpp, which are one loop on two screens. A frame is
-- drawn after each batch of events that `SDL_PollEvent` hands over; it is the place of the cube.
pub mod Moves
mod Examples
use cpp_prac.Prelude.{ℕ, ◌+◌, ◌-◌, Bool, true, false, List, [], ◌∷◌, ltb, if◌then◌else◌}
use cpp_prac.Prelude.Int.{ℤ, pos, negsuc, ltb_ℤ}

pub data Key : Type 0 where
  right left up down q other_key : Key

pub data Input : Type 0 where
  quits : Input
  key_down : Key → Input
  other_event : Input

pub record Game : Type 0 where
  pub quit : Bool
  pub x : ℤ
  pub y : ℤ

abbrev pub new_game : Game
new_game = record { quit = false; x = pos 0; y = pos 0 }

-- `+= 80` and `-= 80`
abbrev pub plus_80 : ℤ → ℤ
plus_80 (pos n) = pos (n + 80)
plus_80 (negsuc n) = if ltb n 80 then pos (79 - n) else negsuc (n - 80)

abbrev pub minus_80 : ℤ → ℤ
minus_80 (pos n) = if ltb n 80 then negsuc (79 - n) else pos (n - 80)
minus_80 (negsuc n) = negsuc (n + 80)

-- A coordinate on a screen of `size` pixels, where the cube goes on, or back.
abbrev pub forth : ℕ → ℤ → ℤ
forth size x = if ltb_ℤ x (minus_80 (pos size)) then plus_80 x else x

abbrev pub back : ℤ → ℤ
back x = if ltb_ℤ (pos 0) x then minus_80 x else x

unfoldable pub press : ℕ → ℕ → Key → Game → Game
press width height right g = record g { x = forth width g.x }
press width height left g = record g { x = back g.x }
press width height up g = record g { y = back g.y }
press width height down g = record g { y = forth height g.y }
press width height q g = record g { quit = true }
press width height other_key g = g

unfoldable pub handle : ℕ → ℕ → Input → Game → Game
handle width height quits g = record g { quit = true }
handle width height (key_down k) g = press width height k g
handle width height other_event g = g

-- All events that are there, also those after the one that quits.
unfoldable pub poll_events : ℕ → ℕ → List Input → Game → Game
poll_events width height [] g = g
poll_events width height (e ∷ es) g = poll_events width height es (handle width height e g)

-- The frames of the loop, for the batches that come.
unfoldable pub play : ℕ → ℕ → Game → List (List Input) → List (ℤ × ℤ)
play width height g [] = []
play width height g (es ∷ batches) =
    let g' = poll_events width height es g in
    let rest = play width height g' batches in if g.quit then [] else (g'.x, g'.y) ∷ rest

-- The two programs.
unfoldable pub snake : List (List Input) → List (ℤ × ℤ)
unfolding play
snake = play 800 600 new_game

unfoldable pub move_cure : List (List Input) → List (ℤ × ℤ)
unfolding play
move_cure = play 640 480 new_game
