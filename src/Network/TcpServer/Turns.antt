-- ===== src/Network/TcpServer/Turns.antt =====
-- A whole result map in network/tcp_server.cpp keeps the count of the clients.
use cpp_prac.Prelude.{
  ℕ, suc, ◌==◌, true, false, Option, none, some, List, [], ◌∷◌, ◌++◌, ◌≡◌, ◌⊎◌, inl, inr,
  Bool-cases, arith,
}
use cpp_prac.Network.TcpSocket.{InetAdress, Ending, returned, thrown, aborted}
use cpp_prac.Network.Poller.{IoState, read, write, error, key, Revents, ReventsMap, PollImpl, poll}
use cpp_prac.Network.TcpServer.{
  TcpServer, Callbacks, Event, handle_entry, handle_entries, handle_event,
}
use cpp_prac.Network.TcpServer.Clients.{IsServer, IsKnown, IsFresh, handle_entry-IsServer}
use cpp_prac.Network.TcpServer.Keys.{From, has_entry, poll-From, From-no_entry}
use cpp_prac.Network.TcpServer.Keeping.{
  AllKnown, is_absent, absent-has, Keeps, entry-Keeps, other_answer, AllKnown-later,
}

-- The answer to an accept, if there is one to come, has a descriptor that no connection has.
abbrev pub IsNew : TcpServer → Option (ℕ × InetAdress) → Type 0
IsNew s none = Unit
IsNew s (some (n, a)) = is_absent (some n) s.connection_map ≡ true

abbrev IsAnswerable : TcpServer → ReventsMap → Option (ℕ × InetAdress) → Type 0
IsAnswerable s es answer = IsNew s answer ⊎ (has_entry (key s.server_socket.fd) es ≡ false)

IsNew-IsFresh :
    (s : TcpServer) (answer : Option (ℕ × InetAdress)) → IsNew s answer → IsFresh s answer
IsNew-IsFresh s none h = tt
IsNew-IsFresh s (some (n, a)) h = absent-has (some n) s.connection_map h

entry-IsServer :
    (cbs : Callbacks) (s : TcpServer) (e : Option ℕ × IoState) (es : ReventsMap)
    (answer : Option (ℕ × InetAdress))
    → IsServer s
    → IsKnown s e
    → IsAnswerable s (e ∷ es) answer
    → IsServer (handle_entry cbs s e answer).0
entry-IsServer cbs s e es answer v known (inl new) =
    handle_entry-IsServer cbs s e answer v known (IsNew-IsFresh s answer new)
entry-IsServer cbs s e es answer v known (inr gone) =
    rw (other_answer cbs s e answer (ground arith)) (handle_entry-IsServer cbs s e none v known tt)

IsNew-later :
    (e : Option ℕ × IoState) (s s' : TcpServer) (answer : Option (ℕ × InetAdress))
    → Keeps e s s'
    → (key e.0 == key s.server_socket.fd) ≡ false
    → IsNew s answer
    → IsNew s' answer
IsNew-later e s s' none keeps ne h = tt
IsNew-later e s s' (some (n, a)) keeps ne h = keeps.absent (some n) ne h

IsAnswerable-later :
    (e : Option ℕ × IoState) (es : ReventsMap) (s s' : TcpServer) (answer : Option (ℕ × InetAdress))
    → Keeps e s s'
    → has_entry (key e.0) es ≡ false
    → IsAnswerable s (e ∷ es) answer
    → IsAnswerable s' es answer
IsAnswerable-later e es s s' answer keeps once (inl new) =
    elim (Bool-cases (key e.0 == key s.server_socket.fd)) [
      | inl own ↦ inr (rw keeps.socket (grind (arith, own, once)))
      | inr other ↦ inl (IsNew-later e s s' answer keeps other new)
    ]
IsAnswerable-later e es s s' answer keeps once (inr gone) = inr (rw keeps.socket (ground arith))

-- What is left of the server at an end.
abbrev IsLeft : TcpServer × List Event × Ending → Type 0
IsLeft (s, events, ending) = IsServer s

go_on-IsServer :
    (o : TcpServer × List Event × Ending) (rest : TcpServer × List Event × Ending)
    → IsServer o.0
    → IsServer rest.0
    → IsLeft (elim o.2 [ returned ↦ (rest.0, o.1 ++ rest.1, rest.2) | x ↦ (o.0, o.1, x) ])
go_on-IsServer (s, events, returned) rest h k = k
go_on-IsServer (s, events, thrown x) rest h k = h
go_on-IsServer (s, events, aborted x) rest h k = h

entries-IsServer :
    (cbs : Callbacks) (s : TcpServer) (n : ℕ) (es : ReventsMap) (answer : Option (ℕ × InetAdress))
    → From n es
    → IsServer s
    → AllKnown s es
    → IsAnswerable s es answer
    → IsServer (handle_entries cbs s es answer).0
unfolding handle_entries From
entries-IsServer cbs s n [] answer f v known new = v
entries-IsServer cbs s n (e ∷ es) answer f v known new =
    let o = handle_entry cbs s e answer in
    let once = From-no_entry (key e.0) (key e.0) es (omega arith) f.1 in
    let keeps = entry-Keeps cbs s e answer known.0 in
    let v' = entry-IsServer cbs s e es answer v known.0 new in
    go_on-IsServer o (handle_entries cbs o.0 es answer) v' (
      entries-IsServer cbs o.0 (suc (key e.0)) es answer f.1 v'
        (AllKnown-later e es s o.0 keeps once known.1)
        (IsAnswerable-later e es s o.0 answer keeps once new))

AllKnown-poller :
    (s : TcpServer) (p : PollImpl) (es : ReventsMap)
    → AllKnown s es
    → AllKnown (record s { poller = p }) es
AllKnown-poller s p [] v = tt
AllKnown-poller s p ((k, read) ∷ es) v = (v.0, AllKnown-poller s p es v.1)
AllKnown-poller s p ((k, write) ∷ es) v = (v.0, AllKnown-poller s p es v.1)
AllKnown-poller s p ((k, error) ∷ es) v = (v.0, AllKnown-poller s p es v.1)

IsNew-poller :
    (s : TcpServer) (p : PollImpl) (answer : Option (ℕ × InetAdress))
    → IsNew s answer
    → IsNew (record s { poller = p }) answer
IsNew-poller s p none v = tt
IsNew-poller s p (some (n, a)) v = v

-- The same over the whole result map.
pub event-IsServer :
    (cbs : Callbacks) (s : TcpServer) (nready : ℕ) (rs : List Revents)
    (answer : Option (ℕ × InetAdress))
    → IsServer s
    → AllKnown s (poll s.poller nready rs).revents_map
    → IsNew s answer
    → IsServer (handle_event cbs s nready rs answer).0
unfolding handle_event
event-IsServer cbs s nready rs answer v known new =
    let p = poll s.poller nready rs in
    entries-IsServer cbs (record s { poller = p }) 0 p.revents_map answer
      (poll-From s.poller nready rs) (record { counted = v.counted; limited = v.limited })
      (AllKnown-poller s p p.revents_map known) (inl (IsNew-poller s p answer new))
