-- ===== src/Network/TcpSocket/Examples.antt =====
-- Runs of network/tcp_socket.cpp, and the theorems about it at inputs.
use cpp_prac.Prelude.{◌≡◌, refl, true, some, [], ◌∷◌, ◌++◌, arith}
use cpp_prac.Network.TcpSocket.{
  TcpSocket, closes, thrown, in_use, local_adress, new_socket, move, close, binds_and_listens,
  connects_to, closes_it, step, run,
}
use cpp_prac.Network.TcpSocket.States.{IsSocket, run-IsSocket, move-double_close}

abbrev server : TcpSocket
server = run (new_socket (local_adress 8080)) (binds_and_listens (some 3) true true ∷ [])

run-IsSocket_example : IsSocket (
    run
      (new_socket (local_adress 8080))
      (binds_and_listens (some 3) true true ∷ connects_to (some 4) true ∷ closes_it ∷ []))
run-IsSocket_example =
    run-IsSocket (local_adress 8080)
      (binds_and_listens (some 3) true true ∷ connects_to (some 4) true ∷ closes_it ∷ [])

server_throws : (step server (connects_to (some 4) true)).ending ≡ thrown in_use
unfolding run step local_adress new_socket
server_throws = refl

server-IsSocket : IsSocket server
unfolding run step local_adress new_socket
server-IsSocket = ground arith

server_fd : server.fd ≡ some 3
unfolding run step local_adress new_socket
server_fd = refl

move-double_close_example :
    (close (move server).0).calls ++ (close (move server).1).calls
    ≡ closes (some 3) ∷ closes (some 3) ∷ []
move-double_close_example = move-double_close server 3 server_fd
