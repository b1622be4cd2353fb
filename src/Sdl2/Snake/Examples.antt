-- ===== src/Sdl2/Snake/Examples.antt =====
-- The programs of sdl2/ at inputs, and the theorem about them.
use cpp_prac.Prelude.{List, [], ◌∷◌, length, replicate, ◌≡◌, refl}
use cpp_prac.Prelude.Int.{pos}
use cpp_prac.Sdl2.Snake.{
  right, down, q, Input, key_down, press, handle, poll_events, play, snake, move_cure,
}
use cpp_prac.Sdl2.Snake.Moves.{AllPlaces, frames, programs-AllPlaces}

abbrev batches : List (List Input)
batches = (key_down right ∷ key_down down ∷ []) ∷ [] ∷ (key_down q ∷ key_down down ∷ []) ∷ [] ∷ []

snake_at_test : snake batches ≡ (pos 80, pos 80) ∷ (pos 80, pos 80) ∷ (pos 80, pos 160) ∷ []
unfolding snake play poll_events handle press
snake_at_test = refl

-- The cube of 80 pixels leaves the screen of 600.
snake_down : snake (replicate 8 (key_down down) ∷ []) ≡ (pos 0, pos 560) ∷ []
unfolding snake play poll_events handle press
snake_down = refl

programs-AllPlaces_example :
    AllPlaces 800 600 (snake batches)
    × AllPlaces 640 480 (move_cure batches)
    × (length (snake batches) ≡ frames batches)
    × (length (move_cure batches) ≡ frames batches)
programs-AllPlaces_example = programs-AllPlaces batches
