-- ===== src/Network/TcpServer/Clients.antt =====
-- The count of the clients in network/tcp_server.cpp.
use cpp_prac.Prelude.{
  ℕ, suc, ◌≤◌, ◌==◌, Bool, true, false, Option, none, some, List, [], ◌∷◌, ◌++◌, ◌≡◌, ◌⊎◌, inl, inr,
  refl, if◌then◌else◌, ltb, length, Bool-cases, arith,
}
use cpp_prac.Prelude.Int.{pos}
use cpp_prac.Network.TcpSocket.{
  InetAdress, TcpSocket, accept, accepted_socket, move, Ending, returned, thrown, aborted,
}
use cpp_prac.Network.Poller.{IoState, read, write, error, key, Revents, poll}
use cpp_prac.Network.TcpServer.{
  ConnectionMap, TcpServer, Callbacks, Event, read_callback, write_callback, refuses,
  connected_callback, destroys, max_clients, at, put, erase, connected, accept_client, call_read,
  call_write, drop_client, handle_entry, handle_entries, handle_event,
}

-- Whether a map in the order of its keys has a connection for a descriptor.
abbrev pub has : Option ℕ → ConnectionMap → Bool
has fd [] = false
has fd ((k, c) ∷ m) =
    if key fd == key k then true else if ltb (key fd) (key k) then false else has fd m

-- The count is the number of connections, and it is at most 3.
pub record IsServer (s : TcpServer) : Type 0 where
  pub counted : s.current_clients ≡ pos (length s.connection_map)
  pub limited : length s.connection_map ≤ 3

-- The entry is that of a connection, or a read of the server's socket.
abbrev pub IsKnown : TcpServer → Option ℕ × IoState → Type 0
IsKnown s (fd, read) =
    ((key fd == key s.server_socket.fd) ≡ true) ⊎ (has fd s.connection_map ≡ true)
IsKnown s (fd, write) = has fd s.connection_map ≡ true
IsKnown s (fd, error) = has fd s.connection_map ≡ true

-- The kernel gives a new connection a descriptor that is not in use.
abbrev pub IsFresh : TcpServer → Option (ℕ × InetAdress) → Type 0
IsFresh s none = Unit
IsFresh s (some (n, a)) = has (some n) s.connection_map ≡ false

pub at-same : (fd : Option ℕ) (m : ConnectionMap) → has fd m ≡ true → (at fd m).1 ≡ m
unfolding at
at-same fd [] h = ground arith
at-same fd ((k, c) ∷ m) h = grind (arith, at-same fd m)

length-put :
    (fd : Option ℕ) (conn : TcpSocket) (m : ConnectionMap)
    → has fd m ≡ false
    → length (put fd conn m) ≡ suc (length m)
unfolding put
length-put fd conn [] h = refl
length-put fd conn ((k, c) ∷ m) h = grind (arith, length-put fd conn m)

length-erase :
    (fd : Option ℕ) (m : ConnectionMap) → has fd m ≡ true → suc (length (erase fd m).1) ≡ length m
unfolding erase
length-erase fd [] h = ground arith
length-erase fd ((k, c) ∷ m) h = grind (arith, length-erase fd m)

accept-IsServer :
    (cbs : Callbacks) (s : TcpServer) (answer : Option (ℕ × InetAdress))
    → IsServer s
    → IsFresh s answer
    → IsServer (accept_client cbs s answer).0
unfolding accept_client connected move accept accepted_socket
accept-IsServer cbs s none v fresh = ground arith
accept-IsServer cbs s (some (n, a)) v fresh =
    grind (arith, length-put (some n) (accepted_socket n a) s.connection_map fresh)

read-IsServer :
    (cbs : Callbacks) (s : TcpServer) (fd : Option ℕ)
    → IsServer s
    → has fd s.connection_map ≡ true
    → IsServer (call_read cbs s fd).0
unfolding call_read
read-IsServer cbs s fd v h = grind (arith, at-same fd s.connection_map h)

drop-IsServer :
    (s : TcpServer) (fd : Option ℕ)
    → IsServer s
    → has fd s.connection_map ≡ true
    → IsServer (drop_client s fd).0
unfolding drop_client
drop-IsServer s fd v h = grind (arith, length-erase fd s.connection_map h)

-- On an entry of a connection, or a read of the server's socket, where an accepted descriptor is not
-- in use, the count of the clients stays the number of the connections and at most 3.
pub handle_entry-IsServer :
    (cbs : Callbacks) (s : TcpServer) (e : Option ℕ × IoState) (answer : Option (ℕ × InetAdress))
    → IsServer s
    → IsKnown s e
    → IsFresh s answer
    → IsServer (handle_entry cbs s e answer).0
unfolding handle_entry call_read call_write
handle_entry-IsServer cbs s (fd, read) answer v known fresh =
    elim (Bool-cases (key fd == key s.server_socket.fd)) [
      | inl e ↦ simp e (accept-IsServer cbs s answer v fresh)
      | inr e ↦ simp e (read-IsServer cbs s fd v (grind (arith, e)))
    ]
handle_entry-IsServer cbs s (fd, write) answer v known fresh =
    grind (arith, at-same fd s.connection_map known)
handle_entry-IsServer cbs s (fd, error) answer v known fresh = drop-IsServer s fd v known

-- No entry of the map is an error.
abbrev pub has_no_error : List (Option ℕ × IoState) → Bool
has_no_error [] = true
has_no_error ((fd, error) ∷ es) = false
has_no_error ((fd, read) ∷ es) = has_no_error es
has_no_error ((fd, write) ∷ es) = has_no_error es

-- No client is told of.
abbrev pub has_no_join : List Event → Bool
has_no_join [] = true
has_no_join (connected_callback c ∷ es) = false
has_no_join (_ ∷ es) = has_no_join es

no_join-append :
    (es fs : List Event)
    → has_no_join es ≡ true
    → has_no_join fs ≡ true
    → has_no_join (es ++ fs) ≡ true
no_join-append [] fs h k = k
no_join-append (read_callback c ∷ es) fs h k = no_join-append es fs h k
no_join-append (write_callback c ∷ es) fs h k = no_join-append es fs h k
no_join-append (connected_callback c ∷ es) fs h k = ground arith
no_join-append (refuses c ∷ es) fs h k = no_join-append es fs h k
no_join-append (destroys c ∷ es) fs h k = no_join-append es fs h k

-- The count stays at 3 and nobody joins.
abbrev pub StaysFull : TcpServer × List Event × Ending → Type 0
StaysFull (s, events, ending) = (s.current_clients ≡ max_clients) × (has_no_join events ≡ true)

accept-StaysFull :
    (cbs : Callbacks) (s : TcpServer) (answer : Option (ℕ × InetAdress))
    → s.current_clients ≡ max_clients
    → StaysFull (accept_client cbs s answer)
unfolding accept_client accept
accept-StaysFull cbs s none h = ground arith
accept-StaysFull cbs s (some (n, a)) h = ground arith

entry-StaysFull :
    (cbs : Callbacks) (s : TcpServer) (e : Option ℕ × IoState) (answer : Option (ℕ × InetAdress))
    → s.current_clients ≡ max_clients
    → has_no_error (e ∷ []) ≡ true
    → StaysFull (handle_entry cbs s e answer)
unfolding handle_entry call_read call_write
entry-StaysFull cbs s (fd, read) answer h ok =
    elim (Bool-cases (key fd == key s.server_socket.fd)) [
      | inl e ↦ simp e (accept-StaysFull cbs s answer h)
      | inr e ↦ simp e (ground arith)
    ]
entry-StaysFull cbs s (fd, write) answer h ok = ground arith
entry-StaysFull cbs s (fd, error) answer h ok = ground arith

go_on-StaysFull :
    (o : TcpServer × List Event × Ending) (f : TcpServer → TcpServer × List Event × Ending)
    → StaysFull o
    → StaysFull (f o.0)
    → StaysFull
        (elim o.2 [ returned ↦ ((f o.0).0, o.1 ++ (f o.0).1, (f o.0).2) | x ↦ (o.0, o.1, x) ])
go_on-StaysFull (s, events, returned) f h k = (k.0, no_join-append events (f s).1 h.1 k.1)
go_on-StaysFull (s, events, thrown x) f h k = h
go_on-StaysFull (s, events, aborted x) f h k = h

no_error_rest :
    (e : Option ℕ × IoState) (es : List (Option ℕ × IoState))
    → has_no_error (e ∷ es) ≡ true
    → has_no_error es ≡ true
no_error_rest (fd, read) es h = h
no_error_rest (fd, write) es h = h
no_error_rest (fd, error) es h = ground arith

entries-StaysFull :
    (cbs : Callbacks) (s : TcpServer) (es : List (Option ℕ × IoState))
    (answer : Option (ℕ × InetAdress))
    → s.current_clients ≡ max_clients
    → has_no_error es ≡ true
    → StaysFull (handle_entries cbs s es answer)
unfolding handle_entries
entries-StaysFull cbs s [] answer h ok = (h, refl)
entries-StaysFull cbs s (e ∷ es) answer h ok =
    let o = handle_entry cbs s e answer in
    let full = entry-StaysFull cbs s e answer h (ground arith) in
    go_on-StaysFull o (λ s'. handle_entries cbs s' es answer) full
      (entries-StaysFull cbs o.0 es answer full.0 (no_error_rest e es ok))

-- With 3 clients, `handleEvent` keeps the count and lets nobody in as long as the poller reports no
-- error, whatever else it reports of the clients: reads that find the end of a stream do not
-- make room.
pub handle_event-StaysFull :
    (cbs : Callbacks) (s : TcpServer) (nready : ℕ) (rs : List Revents)
    (answer : Option (ℕ × InetAdress))
    → s.current_clients ≡ max_clients
    → has_no_error (poll s.poller nready rs).revents_map ≡ true
    → StaysFull (handle_event cbs s nready rs answer)
unfolding handle_event
handle_event-StaysFull cbs s nready rs answer h ok =
    let p = poll s.poller nready rs in
    entries-StaysFull cbs (record s { poller = p }) p.revents_map answer h ok
