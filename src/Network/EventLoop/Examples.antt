-- ===== src/Network/EventLoop/Examples.antt =====
-- Runs of network/event_loop.cpp, and the theorems about it at inputs.
use cpp_prac.Prelude.{◌≡◌, ◌≢◌, ◌⊎◌, refl, true, false, some, none, List, [], ◌∷◌}
use cpp_prac.Prelude.Int.{pos}
use cpp_prac.Network.TcpSocket.{thrown, accept_error, local_adress, accept}
use cpp_prac.Network.Poller.{free_slot, classify, poll, poll_loop, insert, record_state, after}
use cpp_prac.Network.TcpServer.{
  TcpServer, Callbacks, handle_event, handle_entries, handle_entry, accept_client,
}
use cpp_prac.Network.EventLoop.{
  EventLoop, Turn, already_looping, other_thread, failed, turn, loop_turns, loop,
}
use cpp_prac.Network.EventLoop.Turns.{IsOutcome, loop-IsOutcome, loop-failed}

abbrev chat : Callbacks
chat = record { reads = true; writes = false; connects = true }

abbrev server : TcpServer
server = record {
  server_socket = record {
    fd = some 3;
    addr = local_adress 8080;
    is_connected = false;
    is_listened = true;
  };
  current_clients = pos 0;
  connection_map = [];
  poller = record {
    poll_fd = record { fd = some 3; events = true } ∷ free_slot ∷ [];
    revents_map = [];
  };
}

abbrev fresh_loop : EventLoop
fresh_loop = record { tcp_server = server; looping = false; quit_flag = false; thread_id = 1 }

-- A turn with a client that is gone before it is accepted.
abbrev turns : List Turn
turns =
    record {
      nready = 1;
      revents = record { pollin = true; pollout = false; pollerr = false; hangup = false } ∷ [];
      answer = none;
      quits = false;
    }
    ∷ []

loop-IsOutcome_example :
    ((fresh_loop.looping ≡ true) × (loop chat fresh_loop 1 turns ≡ (fresh_loop, already_looping)))
    ⊎ ((fresh_loop.looping ≡ false)
        × (fresh_loop.thread_id ≢ 1)
        × (loop chat fresh_loop 1 turns ≡ (fresh_loop, other_thread)))
    ⊎ ((fresh_loop.looping ≡ false)
        × (fresh_loop.thread_id ≡ 1)
        × IsOutcome (loop chat fresh_loop 1 turns))
loop-IsOutcome_example = loop-IsOutcome chat fresh_loop 1 turns

accept_fails : (loop chat fresh_loop 1 turns).1 ≡ failed (thrown accept_error)
unfolding loop loop_turns turn handle_event handle_entries handle_entry accept_client accept poll
    poll_loop classify insert record_state after
accept_fails = refl

loop-failed_example :
    let l = (loop chat fresh_loop 1 turns).0 in loop chat l 1 turns ≡ (l, already_looping)
loop-failed_example = loop-failed chat fresh_loop 1 1 turns turns (thrown accept_error) accept_fails
