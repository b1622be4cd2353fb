-- ===== src/Nnero/Nthread/Examples.antt =====
-- Threads of nnero/nthread.cpp at inputs, and the theorem about them.
use cpp_prac.Prelude.{ℕ, true, false, Option, none, some, List, [], ◌∷◌, ◌≡◌, refl}
use cpp_prac.Nnero.Nthread.{
  Flags, put_flag, Nthread, done, undefined, not_joinable, terminated, start_thread, move_assign,
  joinable, detach_thread,
}
use cpp_prac.Nnero.Nthread.Moves.{pass_on, Reaches, Lost, Moved, pass_on-Reaches}

abbrev no_flags : Flags
no_flags id = none

abbrev memories : List (Option ℕ)
memories = none ∷ some 9 ∷ []

pass_on-Reaches_example :
    (start_thread true 2 (97 ∷ []) no_flags ≡ undefined)
    × (t t' : Nthread) × (w' : Flags) × (start_thread false 2 (97 ∷ []) no_flags ≡ done t w')
    × (w' 2 ≡ some (record { flag = false; name = 97 ∷ [] }))
    × (pass_on memories t w' ≡ done t' w')
    × ((v : Flags)
        → Reaches 2 (97 ∷ []) t' (put_flag v 2 (some (record { flag = false; name = 97 ∷ [] }))))
    × Lost 2 t'
    × ((memory : Option ℕ) (v : Flags) → Moved memory t' v)
pass_on-Reaches_example = pass_on-Reaches 2 (97 ∷ []) memories no_flags

abbrev running : Nthread
running = record { interrupt_flag = some 2; name = 97 ∷ []; thread = some 2 }

abbrev detached : Nthread
detached = record running { thread = none }

-- An assignment to an object with a thread ends the program, and a second `detach` throws.
assign_over : move_assign false running running no_flags ≡ terminated
unfolding move_assign joinable
assign_over = refl

detach_twice : detach_thread detached no_flags ≡ not_joinable
unfolding detach_thread
detach_twice = refl
