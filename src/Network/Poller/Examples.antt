-- ===== src/Network/Poller/Examples.antt =====
-- Runs of network/poller.cpp, and the theorems about it at inputs.
use cpp_prac.Prelude.{ℕ, ◌≡◌, ◌⊎◌, refl, true, false, some, List, [], ◌∷◌, get_elem?, set, arith}
use cpp_prac.Network.Poller.{Revents, error, PollImpl, free_slot, poll, register_socket}
use cpp_prac.Network.Poller.Slots.{is_full, holds, IsFirstFree, register_socket_cases}
use cpp_prac.Network.Poller.Results.{lookup, ready_count, IsDistinct, poll-lookup}

-- A table of three entries, the second of which is free.
abbrev small : PollImpl
small = record {
  poll_fd =
      record { fd = some 5; events = true }
      ∷ free_slot
      ∷ record { fd = some 4; events = true }
      ∷ [];
  revents_map = [];
}

abbrev reports : List Revents
reports =
    record { pollin = false; pollout = false; pollerr = true; hangup = false }
    ∷ record { pollin = false; pollout = false; pollerr = false; hangup = true }
    ∷ record { pollin = true; pollout = true; pollerr = false; hangup = false }
    ∷ []

register_socket_cases_example :
    ((i : ℕ) × IsFirstFree small.poll_fd i
      × (register_socket small (some 7)
          ≡ record small { poll_fd = set small.poll_fd i (record { fd = some 7; events = true }) }))
    ⊎ ((is_full small.poll_fd ≡ true) × (register_socket small (some 7) ≡ small))
register_socket_cases_example = register_socket_cases small 7

seven_absent : holds 7 small.poll_fd ≡ false
seven_absent = refl

small-IsDistinct : IsDistinct small.poll_fd
small-IsDistinct = ((λ n e. ground arith), ((λ n e. ground arith), ((λ n e. refl), tt)))

poll-lookup_example :
    let q = poll small (ready_count small.poll_fd reports) reports in
    (lookup (some 5) q.revents_map ≡ some error) × (get_elem? q.poll_fd 0 ≡ some free_slot)
poll-lookup_example =
    poll-lookup small reports 5 0 (record { fd = some 5; events = true })
      (record { pollin = false; pollout = false; pollerr = true; hangup = false }) small-IsDistinct
      refl refl refl
