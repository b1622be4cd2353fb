-- ===== src/Network/TcpServer.antt =====
-- network/tcp_server.hpp and network/tcp_server.cpp: `TCPServer`. A connection is its socket, and a
-- null pointer is `none`. The callbacks are calls in a list of events: what they do is the code of
-- the program that sets them, and they leave the fields of the server alone. The lock
-- in the last branch is not looked at, since one thread runs the loop.
mod Examples
pub mod Clients
pub mod Keys
pub mod Keeping
pub mod Turns
pub mod Tables
use cpp_prac.Prelude.{
  ℕ, zero, suc, ◌==◌, Bool, true, false, Option, none, some, List, [], ◌∷◌, ◌++◌, if◌then◌else◌,
  ltb,
}
use cpp_prac.Prelude.Int.{ℤ, pos, negsuc}
use cpp_prac.Network.TcpSocket.{
  InetAdress, TcpSocket, Ending, returned, thrown, local_adress, new_socket, accept, move, close,
  Outcome, bind_and_listen,
}
use cpp_prac.Network.Poller.{
  IoState, read, write, error, key, PollImpl, new_poll, Revents, poll, register_socket,
}

abbrev pub ConnectionMap : Type 0
ConnectionMap = List (Option ℕ × Option TcpSocket)

pub record TcpServer : Type 0 where
  pub server_socket : TcpSocket
  pub current_clients : ℤ
  pub connection_map : ConnectionMap
  pub poller : PollImpl

-- Which callbacks are set.
pub record Callbacks : Type 0 where
  pub reads : Bool
  pub writes : Bool
  pub connects : Bool

pub data Event : Type 0 where
  read_callback : Option TcpSocket → Event
  write_callback : Option TcpSocket → Event
  connected_callback : TcpSocket → Event
  refuses : TcpSocket → Event
  destroys : Option TcpSocket → Event

abbrev pub max_clients : ℤ
max_clients = pos 3

unfoldable pub new_server : ℕ → TcpServer
new_server port = record {
  server_socket = new_socket (local_adress port);
  current_clients = pos 0;
  connection_map = [];
  poller = new_poll;
}

-- `++` and `--` of an int that does not overflow.
abbrev pub increment : ℤ → ℤ
increment (pos n) = pos (suc n)
increment (negsuc zero) = pos 0
increment (negsuc (suc n)) = negsuc n

abbrev pub decrement : ℤ → ℤ
decrement (pos zero) = negsuc 0
decrement (pos (suc n)) = pos n
decrement (negsuc n) = negsuc (suc n)

abbrev pub eq_ℤ : ℤ → ℤ → Bool
eq_ℤ (pos a) (pos b) = a == b
eq_ℤ (negsuc a) (negsuc b) = a == b
eq_ℤ _ _ = false

-- `m_connection_map[fd]`, which puts a null pointer where the key is missing.
unfoldable pub at : Option ℕ → ConnectionMap → Option TcpSocket × ConnectionMap
at fd [] = (none, (fd, none) ∷ [])
at fd ((k, c) ∷ m) =
    let (found, m') = at fd m in
    if key fd == key k
    then (c, (k, c) ∷ m)
    else if ltb (key fd) (key k)
    then (none, (fd, none) ∷ (k, c) ∷ m)
    else (found, (k, c) ∷ m')

-- `m_connection_map[fd] = conn`
unfoldable pub put : Option ℕ → TcpSocket → ConnectionMap → ConnectionMap
put fd conn [] = (fd, some conn) ∷ []
put fd conn ((k, c) ∷ m) =
    if key fd == key k
    then (k, some conn) ∷ m
    else if ltb (key fd) (key k)
    then (fd, some conn) ∷ (k, c) ∷ m
    else (k, c) ∷ put fd conn m

-- `erase`, and the connection that it destroys.
unfoldable pub erase : Option ℕ → ConnectionMap → List Event × ConnectionMap
erase fd [] = ([], [])
erase fd ((k, c) ∷ m) =
    let (gone, m') = erase fd m in
    if key fd == key k then (destroys c ∷ [], m) else (gone, (k, c) ∷ m')

-- The new connection takes the socket by a move.
unfoldable pub connected : Callbacks → TcpServer → TcpSocket → TcpServer × List Event
connected cbs s client =
    let (conn, client') = move client in
    (
      record s {
        current_clients = increment s.current_clients;
        connection_map = put client.fd conn s.connection_map;
        poller = register_socket s.poller client'.fd;
      },
      if cbs.connects then connected_callback conn ∷ [] else [],
    )

unfoldable pub accept_client :
    Callbacks → TcpServer → Option (ℕ × InetAdress) → TcpServer × List Event × Ending
accept_client cbs s answer =
    let (ending, client) = accept s.server_socket answer in
    elim client [
      | none ↦ (s, [], ending)
      | some c ↦
          if eq_ℤ s.current_clients max_clients
          then (s, refuses c ∷ [], returned)
          else let (s', events) = connected cbs s c in (s', events, returned)
    ]

unfoldable pub call_read : Callbacks → TcpServer → Option ℕ → TcpServer × List Event × Ending
call_read cbs s fd =
    let (conn, m) = at fd s.connection_map in
    if cbs.reads
    then (record s { connection_map = m }, read_callback conn ∷ [], returned)
    else (s, [], returned)

unfoldable pub call_write : Callbacks → TcpServer → Option ℕ → TcpServer × List Event × Ending
call_write cbs s fd =
    let (conn, m) = at fd s.connection_map in
    if cbs.writes
    then (record s { connection_map = m }, write_callback conn ∷ [], returned)
    else (s, [], returned)

unfoldable pub drop_client : TcpServer → Option ℕ → TcpServer × List Event × Ending
drop_client s fd =
    let (events, m) = erase fd s.connection_map in
    (
      record s { current_clients = decrement s.current_clients; connection_map = m },
      events,
      returned,
    )

-- The body of the loop on an entry of the result map; the kernel's answer is for an accept.
unfoldable pub handle_entry :
    Callbacks
    → TcpServer
    → Option ℕ × IoState
    → Option (ℕ × InetAdress)
    → TcpServer × List Event × Ending
handle_entry cbs s (fd, read) answer =
    if key fd == key s.server_socket.fd then accept_client cbs s answer else call_read cbs s fd
handle_entry cbs s (fd, write) answer = call_write cbs s fd
handle_entry cbs s (fd, error) answer = drop_client s fd

-- The loop; an exception of `accept` ends it.
unfoldable pub handle_entries :
    Callbacks
    → TcpServer
    → List (Option ℕ × IoState)
    → Option (ℕ × InetAdress)
    → TcpServer × List Event × Ending
handle_entries cbs s [] answer = (s, [], returned)
handle_entries cbs s (e ∷ es) answer =
    let (s', events, ending) = handle_entry cbs s e answer in
    let (s'', later, ending') = handle_entries cbs s' es answer in
    elim ending [ returned ↦ (s'', events ++ later, ending') | x ↦ (s', events, x) ]

-- `handleEvent`: the server's descriptor is a key once, so there is at most one accept.
unfoldable pub handle_event :
    Callbacks
    → TcpServer
    → ℕ
    → List Revents
    → Option (ℕ × InetAdress)
    → TcpServer × List Event × Ending
handle_event cbs s nready rs answer =
    let p = poll s.poller nready rs in
    handle_entries cbs (record s { poller = p }) p.revents_map answer

unfoldable pub start : TcpServer → Option ℕ → Bool → Bool → TcpServer × Ending
start s answer bound listening =
    let o = bind_and_listen s.server_socket answer bound listening in
    let s' : TcpServer = record s { server_socket = o.sock } in
    let ready : TcpServer = record s' { poller = register_socket s.poller s'.server_socket.fd } in
    if s.server_socket.is_listened
    then (record s { poller = register_socket s.poller s.server_socket.fd }, returned)
    else elim o.ending [ returned ↦ (ready, returned) | x ↦ (s', x) ]
