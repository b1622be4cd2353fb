-- ===== src/Network/TcpServer/Examples.antt =====
-- Runs of network/tcp_server.cpp, and the theorems about it at inputs.
use cpp_prac.Prelude.{ℕ, ◌≡◌, refl, true, false, some, List, [], ◌∷◌, arith}
use cpp_prac.Prelude.Int.{pos}
use cpp_prac.Network.TcpSocket.{TcpSocket, local_adress, accepted_socket}
use cpp_prac.Network.Poller.{
  Revents, free_slot, classify, poll, poll_loop, insert, record_state, after,
}
use cpp_prac.Network.TcpServer.{TcpServer, Callbacks, handle_event}
use cpp_prac.Network.TcpServer.Clients.{IsServer, StaysFull, handle_event-StaysFull, has_no_error}
use cpp_prac.Network.TcpServer.Tables.{handle_event-IsServer}

abbrev chat : Callbacks
chat = record { reads = true; writes = false; connects = true }

abbrev listener : TcpSocket
listener = record {
  fd = some 3;
  addr = local_adress 8080;
  is_connected = false;
  is_listened = true;
}

abbrev client : ℕ → TcpSocket
client n = accepted_socket n (local_adress 5000)

abbrev two_clients : TcpServer
two_clients = record {
  server_socket = listener;
  current_clients = pos 2;
  connection_map = (some 4, some (client 4)) ∷ (some 5, some (client 5)) ∷ [];
  poller = record {
    poll_fd =
        record { fd = some 3; events = true }
        ∷ record { fd = some 4; events = true }
        ∷ record { fd = some 5; events = true }
        ∷ free_slot
        ∷ [];
    revents_map = [];
  };
}

abbrev three_clients : TcpServer
three_clients = record two_clients {
  current_clients = pos 3;
  connection_map =
      (some 4, some (client 4)) ∷ (some 5, some (client 5)) ∷ (some 6, some (client 6)) ∷ [];
}

two_clients-IsServer : IsServer two_clients
two_clients-IsServer = record { counted = refl; limited = omega arith }

-- The server's socket and the first client are ready to be read.
abbrev reports : List Revents
reports =
    record { pollin = true; pollout = false; pollerr = false; hangup = false }
    ∷ record { pollin = true; pollout = true; pollerr = false; hangup = false }
    ∷ []

handle_event-IsServer_example :
    IsServer (handle_event chat two_clients 2 reports (some (6, local_adress 5001))).0
handle_event-IsServer_example =
    handle_event-IsServer chat two_clients 2 reports (some (6, local_adress 5001))
      two_clients-IsServer (refl, (refl, (refl, (refl, tt)))) (refl, (refl, tt)) refl

reports_no_error : has_no_error (poll three_clients.poller 2 reports).revents_map ≡ true
unfolding poll poll_loop classify insert record_state after
reports_no_error = refl

handle_event-StaysFull_example :
    StaysFull (handle_event chat three_clients 2 reports (some (7, local_adress 5002)))
handle_event-StaysFull_example =
    handle_event-StaysFull chat three_clients 2 reports (some (7, local_adress 5002)) refl
      reports_no_error
