-- ===== src/Prac/Server/Examples.antt =====
-- The server of prac/server.cpp on small tables, and the theorems about it.
use cpp_prac.Prelude.{
  ℕ, zero, suc, true, false, none, some, [], ◌∷◌, ◌++◌, map, ◌==◌, if◌then◌else◌, ◌≡◌, refl, arith,
}
use cpp_prac.Prelude.Int.{pos, negsuc}
use cpp_prac.Prac.Server.{
  PollSlot, Server, accepts, reads, writes, closes, Bits, Answers, free, say, relay,
  process_conn_once, place, new_client, lose_client, handle_slot, handle_slots, poll_turn,
}
use cpp_prac.Prac.Server.Relay.{others, process_conn_once-others}
use cpp_prac.Prac.Server.Slots.{IsServer}
use cpp_prac.Prac.Server.Turns.{Fits, IsNew, poll_turn-IsServer}

abbrev listening : PollSlot
listening = record { fd = some 3; events = true; client = none }

abbrev client : ℕ → PollSlot
client c = record { fd = some c; events = true; client = some c }

-- Two clients and room for one.
abbrev small : Server
small = record {
  sock_fd = 3;
  slots = listening ∷ client 4 ∷ free ∷ client 6 ∷ [];
  connected_num = pos 2;
}

small-IsServer : IsServer small
small-IsServer = record { slots = (refl, (refl, (refl, (refl, tt)))); number = refl }

abbrev quiet : Bits
quiet = record { pollin = false; pollerr = false }

-- A new client arrives, the first one speaks, and the last one has an error.
abbrev answers : Answers
answers = record {
  revents = λ i.
      if i == 0
      then record { pollin = true; pollerr = false }
      else if i == 1
      then record { pollin = true; pollerr = false }
      else if i == 3
      then record { pollin = false; pollerr = true }
      else quiet;
  accepted = λ i. some 7;
  bytes = λ i. some (104 ∷ []);
}

-- The error closes the descriptor -1 and leaves that of the client open.
small_turn : poll_turn (some 3) answers small ≡ (
  record small { slots = listening ∷ client 4 ∷ client 7 ∷ record free { events = true } ∷ [] },
  accepts
      ∷ reads (some 4)
      ∷ writes 7 (say ++ 104 ∷ 0 ∷ [])
      ∷ writes 6 (say ++ 104 ∷ 0 ∷ [])
      ∷ closes none
      ∷ [],
)
unfolding poll_turn handle_slots handle_slot new_client place process_conn_once relay lose_client
small_turn = refl

answers-Fits : Fits 0 answers small
answers-Fits zero slot h e = ground arith
answers-Fits (suc zero) slot h e = ground arith
answers-Fits (suc (suc zero)) slot h e = refl
answers-Fits (suc (suc (suc zero))) slot h e = ground arith
answers-Fits (suc (suc (suc (suc j)))) slot h e = ground arith

answers-IsNew : IsNew answers small
answers-IsNew j c e = grind arith

poll_turn-IsServer_example : IsServer (poll_turn (some 3) answers small).0
poll_turn-IsServer_example =
    poll_turn-IsServer (some 3) answers small answers-Fits answers-IsNew small-IsServer

process_conn_once-others_example :
    process_conn_once 1 (client 4) (some (104 ∷ [])) small
    ≡ (small, reads (some 4) ∷ map (λ f. writes f (say ++ 104 ∷ 0 ∷ [])) (others 4 small.slots))
process_conn_once-others_example =
    process_conn_once-others small 1 (client 4) 4 104 [] refl refl refl refl

-- An error of the socket that listens counts as the loss of a client, and the number of the clients
-- falls below 0.
listener_error :
    (poll_turn
      (some 1)
      (record answers {
        revents = λ i. if i == 0 then record { pollin = false; pollerr = true } else quiet;
      })
      (record small { slots = listening ∷ []; connected_num = pos 0 })).0.connected_num
    ≡ negsuc 0
unfolding poll_turn handle_slots handle_slot lose_client
listener_error = refl
