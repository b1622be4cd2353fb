-- ===== src/Network/TcpServer/Tables.antt =====
-- The poller's table in network/tcp_server.cpp, and what a `handleEvent` on it leaves of the server.
use cpp_prac.Prelude.{
  ℕ, ◌==◌, Bool, true, ◌||◌, not, Option, none, some, List, [], ◌∷◌, ◌≡◌, inl, inr, refl, sym, ap,
  subst, ltb, Bool-cases, arith,
}
use cpp_prac.Network.TcpSocket.{InetAdress}
use cpp_prac.Network.Poller.{
  PollFd, IoState, key, Revents, ReventsMap, insert, classify, record_state, count_down, poll_loop,
  poll,
}
use cpp_prac.Network.TcpServer.{TcpServer, Callbacks, handle_event}
use cpp_prac.Network.TcpServer.Clients.{has, IsServer, IsKnown}
use cpp_prac.Network.TcpServer.Keeping.{AllKnown}
use cpp_prac.Network.TcpServer.Turns.{IsNew, event-IsServer}

-- An entry of the table is free, or has the server's socket or a connection.
abbrev pub is_registered : TcpServer → PollFd → Bool
is_registered s slot = elim slot.fd [
  | none ↦ true
  | some n ↦ (key (some n) == key s.server_socket.fd) || has (some n) s.connection_map
]

-- The kernel reports nothing for a free entry, and for the server's socket a POLLIN or nothing.
abbrev pub fits : TcpServer → PollFd → Revents → Bool
fits s slot r = elim slot.fd [
  | none ↦ not (r.pollin || (r.pollout || r.pollerr))
  | some n ↦
      not (key (some n) == key s.server_socket.fd) || (r.pollin || not (r.pollout || r.pollerr))
]

abbrev pub AllRegistered : TcpServer → List PollFd → Type 0
AllRegistered s [] = Unit
AllRegistered s (slot ∷ ss) = (is_registered s slot ≡ true) × AllRegistered s ss

abbrev pub AllFit : TcpServer → List PollFd → List Revents → Type 0
AllFit s (slot ∷ ss) (r ∷ rs) = (fits s slot r ≡ true) × AllFit s ss rs
AllFit s ss rs = Unit

key-injective : (k k' : Option ℕ) → (key k == key k') ≡ true → k' ≡ k
key-injective none none h = refl
key-injective none (some n) h = ground arith
key-injective (some n) none h = ground arith
key-injective (some n) (some m) h = ap some (ground arith)

insert-AllKnown :
    (s : TcpServer) (k : Option ℕ) (v : IoState) (m : ReventsMap)
    → IsKnown s (k, v)
    → AllKnown s m
    → AllKnown s (insert k v m)
unfolding insert
insert-AllKnown s k v [] h all = (h, tt)
insert-AllKnown s k v ((k', v') ∷ m) h all = elim (Bool-cases (key k == key k')) [
  | inl same ↦ simp same (subst (λ x. IsKnown s (x, v)) (sym (key-injective k k' same)) h, all.1)
  | inr other ↦ elim (Bool-cases (ltb (key k) (key k'))) [
    | inl before ↦ simp (other, before) (h, all)
    | inr behind ↦ simp (other, behind) (all.0, insert-AllKnown s k v m h all.1)
  ]
]

-- The state of an entry, where it has one, is known.
abbrev KnownState : TcpServer → Option ℕ → Option IoState → Type 0
KnownState s k none = Unit
KnownState s k (some v) = IsKnown s (k, v)

no_state :
    (s : TcpServer) (r : Revents)
    → not (r.pollin || (r.pollout || r.pollerr)) ≡ true
    → KnownState s none (classify r)
unfolding classify
no_state s r h = ground arith

some_state :
    (s : TcpServer) (n : ℕ) (r : Revents)
    → ((key (some n) == key s.server_socket.fd) || has (some n) s.connection_map) ≡ true
    → (not (key (some n) == key s.server_socket.fd) || (r.pollin || not (r.pollout || r.pollerr)))
      ≡ true
    → KnownState s (some n) (classify r)
unfolding classify
some_state s n r reg fit = elim (Bool-cases (key (some n) == key s.server_socket.fd)) [
  | inl own ↦ ground (arith, own)
  | inr other ↦ ground (arith, other)
]

slot_state :
    (s : TcpServer) (slot : PollFd) (r : Revents)
    → is_registered s slot ≡ true
    → fits s slot r ≡ true
    → KnownState s slot.fd (classify r)
slot_state s slot r reg fit = state_of slot.fd reg fit
  where
    state_of :
        (fd : Option ℕ)
        → is_registered s (record slot { fd = fd }) ≡ true
        → fits s (record slot { fd = fd }) r ≡ true
        → KnownState s fd (classify r)
    state_of none reg fit = no_state s r fit
    state_of (some n) reg fit = some_state s n r reg fit

record-AllKnown :
    (s : TcpServer) (k : Option ℕ) (c : Option IoState) (m : ReventsMap)
    → KnownState s k c
    → AllKnown s m
    → AllKnown s (record_state k c m)
unfolding record_state
record-AllKnown s k none m h all = all
record-AllKnown s k (some v) m h all = insert-AllKnown s k v m h all

poll_loop-AllKnown :
    (s : TcpServer) (n : ℕ) (ss : List PollFd) (rs : List Revents) (m : ReventsMap)
    → AllRegistered s ss
    → AllFit s ss rs
    → AllKnown s m
    → AllKnown s (poll_loop n ss rs m).1
unfolding poll_loop
poll_loop-AllKnown s n [] rs m reg fit all = all
poll_loop-AllKnown s n (slot ∷ ss) [] m reg fit all = all
poll_loop-AllKnown s n (slot ∷ ss) (r ∷ rs) m reg fit all =
    let m' = record_state slot.fd (classify r) m in
    let all' = record-AllKnown s slot.fd (classify r) m (slot_state s slot r reg.0 fit.0) all in
    let n' = count_down (classify r) n in
    elim (Bool-cases (n' == 0)) [
      | inl done ↦ simp done all'
      | inr more ↦ simp more (poll_loop-AllKnown s n' ss rs m' reg.1 fit.1 all')
    ]

poll-AllKnown :
    (s : TcpServer) (n : ℕ) (rs : List Revents)
    → AllRegistered s s.poller.poll_fd
    → AllFit s s.poller.poll_fd rs
    → AllKnown s (poll s.poller n rs).revents_map
unfolding poll
poll-AllKnown s n rs reg fit = elim (Bool-cases (ltb 0 n)) [
  | inl e ↦ simp e (poll_loop-AllKnown s n s.poller.poll_fd rs [] reg fit tt)
  | inr e ↦ simp e tt
]

-- `handleEvent` keeps the count of the clients the number of the connections and at most 3, also where
-- it ends in an exception. It is to start with a table of the poller in which every entry is free, the
-- server's socket or a connection; the kernel is to report nothing for a free entry, nothing but a
-- POLLIN, alone or with others, for the server's socket, and to give an accepted client a descriptor
-- that no connection has. A POLLERR alone of the server's socket, which lowers the count, is excluded.
pub handle_event-IsServer :
    (cbs : Callbacks) (s : TcpServer) (nready : ℕ) (rs : List Revents)
    (answer : Option (ℕ × InetAdress))
    → IsServer s
    → AllRegistered s s.poller.poll_fd
    → AllFit s s.poller.poll_fd rs
    → IsNew s answer
    → IsServer (handle_event cbs s nready rs answer).0
handle_event-IsServer cbs s nready rs answer v reg fit new =
    event-IsServer cbs s nready rs answer v (poll-AllKnown s nready rs reg fit) new
