-- ===== src/Network/TcpSocket.antt =====
-- network/tcp_socket.hpp and network/tcp_socket.cpp.
-- What the kernel answers is an argument of each method, and what the kernel
-- is asked is a list. A descriptor is a number, and `none` is -1.
mod Examples
pub mod States
use Prim.Native.String.{String}
use cpp_prac.Prelude.{
  ℕ, Bool, true, false, not, ◌||◌, Option, none, some, List, [], ◌∷◌, if◌then◌else◌,
}

pub record InetAdress : Type 0 where
  pub ip : String
  pub port : ℕ

-- `InetAdress(port)`
unfoldable pub local_adress : ℕ → InetAdress
local_adress port = record { ip = "127.0.0.1"; port = port }

pub record TcpSocket : Type 0 where
  pub fd : Option ℕ
  pub addr : InetAdress
  pub is_connected : Bool
  pub is_listened : Bool

pub data Syscall : Type 0 where
  socket : Syscall
  bind : ℕ → ℕ → Syscall
  listen : ℕ → ℕ → Syscall
  accepts : Option ℕ → Syscall
  connects : ℕ → InetAdress → Syscall
  closes : Option ℕ → Syscall
  shuts_read shuts_write : Option ℕ → Syscall

-- The exceptions, by their messages, and the messages before an `abort`.
pub data Failure : Type 0 where
  already_connected already_listened fd_already_init not_listened accept_error : Failure
  in_use : Failure

pub data Fatal : Type 0 where
  socket_fail bind_fail listen_fail : Fatal

pub data Ending : Type 0 where
  returned : Ending
  thrown : Failure → Ending
  aborted : Fatal → Ending

pub record Outcome : Type 0 where
  pub sock : TcpSocket
  pub ending : Ending
  pub calls : List Syscall

-- `TCPSocket(port)` and `TCPSocket(ip, port)`, and the one of an accepted descriptor.
unfoldable pub new_socket : InetAdress → TcpSocket
new_socket a = record { fd = none; addr = a; is_connected = false; is_listened = false }

unfoldable pub accepted_socket : ℕ → InetAdress → TcpSocket
accepted_socket fd a = record { fd = some fd; addr = a; is_connected = true; is_listened = false }

-- The move copies all fields, and leaves the source as it was.
unfoldable pub move : TcpSocket → TcpSocket × TcpSocket
move s = (s, s)

abbrev pub is_none : Option ℕ → Bool
is_none none = true
is_none (some _) = false

abbrev pub backlog : ℕ
backlog = 512

fail : TcpSocket → Failure → Outcome
fail s e = record { sock = s; ending = thrown e; calls = [] }

-- The kernel's answers: a descriptor or none from `socket`, and whether `bind` and `listen` worked.
listen_on : TcpSocket → Option ℕ → Bool → Bool → Outcome
listen_on s none bound listening = record {
  sock = record s { fd = none };
  ending = aborted socket_fail;
  calls = socket ∷ [];
}
listen_on s (some n) bound listening =
    let s' : TcpSocket = record s { fd = some n } in
    if not bound
    then record { sock = s'; ending = aborted bind_fail; calls = socket ∷ bind n s.addr.port ∷ [] }
    else if not listening
    then record {
      sock = s';
      ending = aborted listen_fail;
      calls = socket ∷ bind n s.addr.port ∷ listen n backlog ∷ [];
    }
    else record {
      sock = record s { fd = some n; is_listened = true };
      ending = returned;
      calls = socket ∷ bind n s.addr.port ∷ listen n backlog ∷ [];
    }

-- The test of the port for a value below 0 never holds, since the port is unsigned.
unfoldable pub bind_and_listen : TcpSocket → Option ℕ → Bool → Bool → Outcome
unfolding fail listen_on
bind_and_listen s answer bound listening =
    if s.is_connected
    then fail s already_connected
    else if s.is_listened
    then fail s already_listened
    else if not (is_none s.fd)
    then fail s fd_already_init
    else listen_on s answer bound listening

-- `accept`: the listening socket as it is, and the new socket. The kernel answers with a descriptor
-- and the address of the peer.
unfoldable pub accept : TcpSocket → Option (ℕ × InetAdress) → Ending × Option TcpSocket
unfolding accepted_socket
accept s answer =
    if s.is_connected
    then (thrown already_connected, none)
    else if not s.is_listened
    then (thrown not_listened, none)
    else elim answer [
      | none ↦ (thrown accept_error, none)
      | some (fd, a) ↦ (returned, some (accepted_socket fd a))
    ]

-- The kernel's answer to `connect` is looked at for a message only.
connect_to : TcpSocket → Option ℕ → Bool → Outcome
connect_to s none reached = record {
  sock = record s { fd = none };
  ending = aborted socket_fail;
  calls = socket ∷ [];
}
connect_to s (some n) reached = record {
  sock = record s { fd = some n; is_connected = true };
  ending = returned;
  calls = socket ∷ connects n s.addr ∷ [];
}

unfoldable pub connect : TcpSocket → Option ℕ → Bool → Outcome
unfolding fail connect_to
connect s answer reached =
    if s.is_listened || s.is_connected then fail s in_use else connect_to s answer reached

unfoldable pub close : TcpSocket → Outcome
close s =
    if s.is_listened || s.is_connected || not (is_none s.fd)
    then record {
      sock = record s { fd = none; is_listened = false; is_connected = false };
      ending = returned;
      calls = closes s.fd ∷ [];
    }
    else record { sock = s; ending = returned; calls = [] }

unfoldable pub shutdown_read : TcpSocket → Outcome
shutdown_read s = record {
  sock = s;
  ending = returned;
  calls = if s.is_connected then shuts_read s.fd ∷ [] else [];
}

unfoldable pub shutdown_write : TcpSocket → Outcome
shutdown_write s = record {
  sock = s;
  ending = returned;
  calls = if s.is_connected then shuts_write s.fd ∷ [] else [];
}

-- The calls that change a socket, with the kernel's answers.
pub data Call : Type 0 where
  binds_and_listens : Option ℕ → Bool → Bool → Call
  connects_to : Option ℕ → Bool → Call
  closes_it shuts_its_read shuts_its_write : Call

unfoldable pub step : TcpSocket → Call → Outcome
unfolding bind_and_listen connect close shutdown_read shutdown_write
step s (binds_and_listens answer bound listening) = bind_and_listen s answer bound listening
step s (connects_to answer reached) = connect s answer reached
step s closes_it = close s
step s shuts_its_read = shutdown_read s
step s shuts_its_write = shutdown_write s

unfoldable pub run : TcpSocket → List Call → TcpSocket
run s [] = s
run s (c ∷ cs) = run (step s c).sock cs
