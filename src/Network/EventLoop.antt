-- ===== src/Network/EventLoop.antt =====
-- network/event_loop.hpp and network/event_loop.cpp: `EventLoop`. A thread is its number, and
-- `loop_ptr` of the thread says whether it has a loop. `m_quit`, which the constructor leaves as it
-- is, is an argument of the constructor. A turn of the loop has what the kernel answers, and whether
-- `quit` is called in it, by a callback or by another thread.
mod Examples
pub mod Turns
use cpp_prac.Prelude.{
  ℕ, ◌==◌, Bool, true, false, not, ◌||◌, Option, none, some, List, [], ◌∷◌, if◌then◌else◌,
}
use cpp_prac.Network.TcpSocket.{InetAdress, Ending, returned}
use cpp_prac.Network.Poller.{Revents}
use cpp_prac.Network.TcpServer.{TcpServer, Callbacks, handle_event}

pub record EventLoop : Type 0 where
  pub tcp_server : TcpServer
  pub looping : Bool
  pub quit_flag : Bool
  pub thread_id : ℕ

-- `EventLoop(server)`: `none` is the exception. The other part is `loop_ptr` after it.
unfoldable pub new_loop : Bool → TcpServer → Bool → ℕ → Option EventLoop × Bool
new_loop has_loop server quit_memory this_thread = if has_loop then (none, true) else (
  some (record {
    tcp_server = server;
    looping = false;
    quit_flag = quit_memory;
    thread_id = this_thread;
  }),
  true,
)

unfoldable pub quit : EventLoop → EventLoop
quit l = if not l.quit_flag then record l { quit_flag = true } else l

pub record Turn : Type 0 where
  pub nready : ℕ
  pub revents : List Revents
  pub answer : Option (ℕ × InetAdress)
  pub quits : Bool

-- How `loop` goes: it returns, throws an exception of its own or one of the server, or has not ended after
-- the turns.
pub data Looping : Type 0 where
  ended already_looping other_thread running : Looping
  failed : Ending → Looping

-- One turn: `handleEvent`, and a call of `quit`.
unfoldable pub turn : Callbacks → EventLoop → Turn → EventLoop × Ending
turn cbs l t =
    let (server, events, ending) = handle_event cbs l.tcp_server t.nready t.revents t.answer in
    let l' : EventLoop = record l { tcp_server = server } in
    (if t.quits then quit l' else l', ending)

-- The `while(!m_quit)`, with the turns to come.
unfoldable pub loop_turns : Callbacks → EventLoop → List Turn → EventLoop × Looping
loop_turns cbs l [] = if l.quit_flag then (record l { looping = false }, ended) else (l, running)
loop_turns cbs l (t ∷ ts) =
    let (l', ending) = turn cbs l t in
    let rest = loop_turns cbs l' ts in
    if l.quit_flag
    then (record l { looping = false }, ended)
    else elim ending [ returned ↦ rest | x ↦ (l', failed x) ]

unfoldable pub loop : Callbacks → EventLoop → ℕ → List Turn → EventLoop × Looping
loop cbs l this_thread ts =
    if l.looping
    then (l, already_looping)
    else if not (l.thread_id == this_thread)
    then (l, other_thread)
    else loop_turns cbs (record l { looping = true }) ts
