-- ===== src/Network/ChatServer/Examples.antt =====
-- The chat server of network/server.cpp at inputs, and the theorem about it.
use cpp_prac.Prelude.{ℕ, true, false, none, some, List, [], ◌∷◌, ◌≡◌, refl}
use cpp_prac.Nnero.Logging.{Text}
use cpp_prac.Network.TcpConnection.{TcpConnection}
use cpp_prac.Network.ChatServer.{returns, read_loop, r_callback}

-- A client on this machine, with its descriptor.
abbrev client : ℕ → ℕ → TcpConnection
client fd port = record {
  socket = record {
    fd = some fd;
    addr = record { ip = "127.0.0.1"; port = port };
    is_connected = true;
    is_listened = false;
  };
}

-- The digit of a port below 10.
abbrev digit : ℕ → Text
digit n = 48 ∷ []

abbrev room : List TcpConnection
room = client 4 1 ∷ client 5 2 ∷ client 6 3 ∷ []

-- Clients are told apart by their ports alone: of two clients with the same port the other one leaves.
wrong_leaves :
    r_callback digit (client 5 1) (client 4 1 ∷ client 5 1 ∷ []) (none ∷ [])
    ≡ returns (client 5 1 ∷ []) []
unfolding r_callback read_loop
wrong_leaves = refl
