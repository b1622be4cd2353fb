-- ===== src/Network/TcpSocket/States.antt =====
-- The states of a socket of network/tcp_socket.cpp.
use cpp_prac.Prelude.{ℕ, ◌≡◌, Bool, true, false, some, List, [], ◌∷◌, ◌++◌, arith}
use cpp_prac.Network.TcpSocket.{
  InetAdress, TcpSocket, closes, returned, thrown, Failure, new_socket, move, is_none, connect,
  close, Call, binds_and_listens, connects_to, closes_it, shuts_its_read, shuts_its_write, step,
  run,
}

-- A socket that listens or is connected has a descriptor, and it does not do both.
pub record IsSocket (s : TcpSocket) : Type 0 where
  pub listening : s.is_listened ≡ true → is_none s.fd ≡ false
  pub connected : s.is_connected ≡ true → is_none s.fd ≡ false
  pub apart : s.is_listened ≡ true → s.is_connected ≡ false

step-IsSocket : (s : TcpSocket) (c : Call) → IsSocket s → IsSocket (step s c).sock
unfolding step
step-IsSocket s (binds_and_listens answer bound listening) v = ground arith
step-IsSocket s (connects_to answer reached) v = ground arith
step-IsSocket s closes_it v = ground arith
step-IsSocket s shuts_its_read v = ground arith
step-IsSocket s shuts_its_write v = ground arith

run_lem : (s : TcpSocket) (cs : List Call) → IsSocket s → IsSocket (run s cs)
unfolding run
run_lem s [] v = v
run_lem s (c ∷ cs) v = run_lem (step s c).sock cs (step-IsSocket s c v)

new-IsSocket : (a : InetAdress) → IsSocket (new_socket a)
unfolding new_socket
new-IsSocket a = ground arith

-- After any calls on a new socket, whatever the kernel answers and also after exceptions, a socket
-- that listens or is connected has a descriptor, and no socket does both.
pub run-IsSocket : (a : InetAdress) (cs : List Call) → IsSocket (run (new_socket a) cs)
run-IsSocket a cs = run_lem (new_socket a) cs (new-IsSocket a)

-- A call that throws leaves the socket as it was and asks nothing of the kernel.
thrown-same :
    (s : TcpSocket) (c : Call) (e : Failure)
    → (step s c).ending ≡ thrown e
    → ((step s c).sock ≡ s) × ((step s c).calls ≡ [])
unfolding step
thrown-same s (binds_and_listens answer bound listening) e h = ground arith
thrown-same s (connects_to answer reached) e h = ground arith
thrown-same s closes_it e h = ground arith
thrown-same s shuts_its_read e h = ground arith
thrown-same s shuts_its_write e h = ground arith

-- `connect` on a new socket returns as connected, whether or not the kernel reached the peer.
connect-unreached :
    (a : InetAdress) (fd : ℕ) (reached : Bool)
    → let o = connect (new_socket a) (some fd) reached in
      (o.ending ≡ returned) × (o.sock.is_connected ≡ true) × (o.sock.fd ≡ some fd)
unfolding connect new_socket
connect-unreached a fd reached = ground arith

-- `close` brings every well-formed socket back to that of a new socket of its address, and a second
-- `close` asks nothing of the kernel.
close-new :
    (s : TcpSocket)
    → IsSocket s
    → ((close s).sock ≡ new_socket s.addr) × ((close (close s).sock).calls ≡ [])
unfolding close new_socket
close-new s v = ground arith

-- A moved-from socket keeps the descriptor: where it is closed too, the kernel is asked to close
-- the same descriptor twice.
pub move-double_close :
    (s : TcpSocket) (fd : ℕ)
    → s.fd ≡ some fd
    → (close (move s).0).calls ++ (close (move s).1).calls
      ≡ closes (some fd) ∷ closes (some fd) ∷ []
unfolding close move
move-double_close s fd h = ground arith
