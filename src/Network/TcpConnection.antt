-- ===== src/Network/TcpConnection.antt =====
-- network/tcp_connection.cpp: the reads and the writes of a connection. What `read` answers is an
-- argument, of which `none` is -1 and the empty list 0; what is written is a list.
use cpp_prac.Prelude.{ℕ, Option, some, List, [], ◌∷◌, if◌then◌else◌}
use cpp_prac.Nnero.Logging.{Text}
use cpp_prac.Network.TcpSocket.{TcpSocket}

pub record TcpConnection : Type 0 where
  pub socket : TcpSocket

pub record Written : Type 0 where
  pub fd : Option ℕ
  pub bytes : Text

-- Without a connection nothing is read, and the answer is 0.
abbrev pub read_bytes : TcpConnection → Option Text → Option Text
read_bytes conn answer = if conn.socket.is_connected then answer else some []

-- Without a connection nothing is written.
abbrev pub write_bytes : TcpConnection → Text → List Written
write_bytes conn text =
    if conn.socket.is_connected then record { fd = conn.socket.fd; bytes = text } ∷ [] else []

abbrev pub get_port : TcpConnection → ℕ
get_port conn = conn.socket.addr.port
