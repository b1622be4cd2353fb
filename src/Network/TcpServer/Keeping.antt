-- ===== src/Network/TcpServer/Keeping.antt =====
-- What an entry of the result map changes in network/tcp_server.cpp, and what it keeps.
use cpp_prac.Prelude.{
  ℕ, ◌==◌, Bool, true, false, ◌&&◌, not, Option, none, some, [], ◌∷◌, ◌≡◌, inl, inr, refl,
  Bool-cases, arith,
}
use cpp_prac.Network.TcpSocket.{InetAdress, TcpSocket, accept, accepted_socket, move}
use cpp_prac.Network.Poller.{IoState, read, write, error, key, ReventsMap}
use cpp_prac.Network.TcpServer.{
  ConnectionMap, TcpServer, Callbacks, put, erase, connected, accept_client, call_read, call_write,
  drop_client, handle_entry,
}
use cpp_prac.Network.TcpServer.Clients.{has, IsKnown, at-same}
use cpp_prac.Network.TcpServer.Keys.{has_entry}

-- All entries are known.
abbrev pub AllKnown : TcpServer → ReventsMap → Type 0
AllKnown s [] = Unit
AllKnown s (e ∷ es) = IsKnown s e × AllKnown s es

-- No connection has the descriptor.
abbrev pub is_absent : Option ℕ → ConnectionMap → Bool
is_absent fd [] = true
is_absent fd ((k, c) ∷ m) = not (key fd == key k) && is_absent fd m

pub absent-has : (fd : Option ℕ) (m : ConnectionMap) → is_absent fd m ≡ true → has fd m ≡ false
absent-has fd [] h = refl
absent-has fd ((k, c) ∷ m) h = grind (arith, absent-has fd m)

erase-absent :
    (fd fd' : Option ℕ) (m : ConnectionMap)
    → is_absent fd m ≡ true
    → is_absent fd (erase fd' m).1 ≡ true
unfolding erase
erase-absent fd fd' [] h = refl
erase-absent fd fd' ((k, c) ∷ m) h = grind (arith, erase-absent fd fd' m)

has-put :
    (fd fd' : Option ℕ) (conn : TcpSocket) (m : ConnectionMap)
    → has fd m ≡ true
    → has fd (put fd' conn m) ≡ true
unfolding put
has-put fd fd' conn [] h = ground arith
has-put fd fd' conn ((k, c) ∷ m) h = grind (arith, has-put fd fd' conn m)

has-erase :
    (fd fd' : Option ℕ) (m : ConnectionMap)
    → (key fd == key fd') ≡ false
    → has fd m ≡ true
    → has fd (erase fd' m).1 ≡ true
unfolding erase
has-erase fd fd' [] ne h = ground arith
has-erase fd fd' ((k, c) ∷ m) ne h = grind (arith, has-erase fd fd' m)

-- What an entry leaves as it was: the connections under other keys, and, but for the entry of the
-- server's socket, that a descriptor is absent.
pub record Keeps (e : Option ℕ × IoState) (s s' : TcpServer) : Type 0 where
  pub socket : s'.server_socket ≡ s.server_socket
  pub others :
      (fd : Option ℕ)
      → (key fd == key e.0) ≡ false
      → has fd s.connection_map ≡ true
      → has fd s'.connection_map ≡ true
  pub absent :
      (fd : Option ℕ)
      → (key e.0 == key s.server_socket.fd) ≡ false
      → is_absent fd s.connection_map ≡ true
      → is_absent fd s'.connection_map ≡ true

same-Keeps :
    (e : Option ℕ × IoState) (s s' : TcpServer)
    → s'.server_socket ≡ s.server_socket
    → s'.connection_map ≡ s.connection_map
    → Keeps e s s'
same-Keeps e s s' p q = record {
  socket = p;
  others = λ fd ne h. rw q h;
  absent = λ fd ne h. rw q h;
}

accept-Keeps :
    (cbs : Callbacks) (s : TcpServer) (fd : Option ℕ) (answer : Option (ℕ × InetAdress))
    → (key fd == key s.server_socket.fd) ≡ true
    → Keeps (fd, read) s (accept_client cbs s answer).0
unfolding accept_client connected move accept accepted_socket
accept-Keeps cbs s fd none own = record {
  socket = ground arith;
  others = λ fd' ne h. ground arith;
  absent = λ fd' ne h. ground arith;
}
accept-Keeps cbs s fd (some (n, a)) own = record {
  socket = ground arith;
  others =
      λ fd' ne h. ground (arith, has-put fd' (some n) (accepted_socket n a) s.connection_map h);
  absent = λ fd' ne h. ground arith;
}

drop-Keeps : (s : TcpServer) (fd : Option ℕ) → Keeps (fd, error) s (drop_client s fd).0
unfolding drop_client
drop-Keeps s fd = record {
  socket = refl;
  others = λ fd' ne h. has-erase fd' fd s.connection_map ne h;
  absent = λ fd' ne h. erase-absent fd' fd s.connection_map h;
}

read-Keeps :
    (cbs : Callbacks) (s : TcpServer) (fd : Option ℕ)
    → has fd s.connection_map ≡ true
    → Keeps (fd, read) s (call_read cbs s fd).0
unfolding call_read
read-Keeps cbs s fd h =
    same-Keeps (fd, read) s _ (ground arith) (grind (arith, at-same fd s.connection_map h))

write-Keeps :
    (cbs : Callbacks) (s : TcpServer) (fd : Option ℕ)
    → has fd s.connection_map ≡ true
    → Keeps (fd, write) s (call_write cbs s fd).0
unfolding call_write
write-Keeps cbs s fd h =
    same-Keeps (fd, write) s _ (ground arith) (grind (arith, at-same fd s.connection_map h))

pub entry-Keeps :
    (cbs : Callbacks) (s : TcpServer) (e : Option ℕ × IoState) (answer : Option (ℕ × InetAdress))
    → IsKnown s e
    → Keeps e s (handle_entry cbs s e answer).0
unfolding handle_entry
entry-Keeps cbs s (fd, read) answer known = elim (Bool-cases (key fd == key s.server_socket.fd)) [
  | inl e ↦ simp e (accept-Keeps cbs s fd answer e)
  | inr e ↦ simp e (read-Keeps cbs s fd (grind (arith, e)))
]
entry-Keeps cbs s (fd, write) answer known = write-Keeps cbs s fd known
entry-Keeps cbs s (fd, error) answer known = drop-Keeps s fd

-- Only the entry of the server's socket looks at the answer.
pub other_answer :
    (cbs : Callbacks) (s : TcpServer) (e : Option ℕ × IoState) (answer : Option (ℕ × InetAdress))
    → (key e.0 == key s.server_socket.fd) ≡ false
    → handle_entry cbs s e answer ≡ handle_entry cbs s e none
unfolding handle_entry
other_answer cbs s (fd, read) answer ne = simp ne
other_answer cbs s (fd, write) answer ne = refl
other_answer cbs s (fd, error) answer ne = refl

IsKnown-later :
    (e e' : Option ℕ × IoState) (s s' : TcpServer)
    → Keeps e s s'
    → (key e'.0 == key e.0) ≡ false
    → IsKnown s e'
    → IsKnown s' e'
IsKnown-later e (fd, read) s s' keeps ne (inl own) = inl (rw keeps.socket own)
IsKnown-later e (fd, read) s s' keeps ne (inr h) = inr (keeps.others fd ne h)
IsKnown-later e (fd, write) s s' keeps ne h = keeps.others fd ne h
IsKnown-later e (fd, error) s s' keeps ne h = keeps.others fd ne h

pub AllKnown-later :
    (e : Option ℕ × IoState) (es : ReventsMap) (s s' : TcpServer)
    → Keeps e s s'
    → has_entry (key e.0) es ≡ false
    → AllKnown s es
    → AllKnown s' es
AllKnown-later e [] s s' keeps ne v = tt
AllKnown-later e ((k, w) ∷ es) s s' keeps ne v = (
  IsKnown-later e (k, w) s s' keeps (ground arith) v.0,
  AllKnown-later e es s s' keeps (ground arith) v.1,
)
