-- ===== src/Network/ChatServer.antt =====
-- network/server.cpp: what the chat server does when a client connects and when there is something
-- to read from one. `std::to_string` is a parameter. A read that waits for the client waits for ever
-- where no more answers are given.
pub mod Messages
mod Examples
use cpp_prac.Prelude.{
  ℕ, Bool, true, false, Option, none, some, List, [], ◌∷◌, ◌++◌, ◌==◌, if◌then◌else◌,
}
use cpp_prac.Nnero.Logging.{Text}
use cpp_prac.Network.TcpConnection.{TcpConnection, Written, read_bytes, write_bytes, get_port}

-- How a callback ends: it returns with the active connections and what it has written, or waits for
-- the client.
pub data Callback : Type 0 where
  returns : List TcpConnection → List Written → Callback
  waits : Callback

-- " join to chatroom!\n", "conn " and " say:"
abbrev pub join_text : Text
join_text =
    32 ∷ 106 ∷ 111 ∷ 105 ∷ 110 ∷ 32 ∷ 116 ∷ 111 ∷ 32 ∷ 99 ∷ 104 ∷ 97 ∷ 116 ∷ 114 ∷ 111 ∷ 111 ∷ 109
    ∷ 33 ∷ 10 ∷ []

abbrev pub conn_text : Text
conn_text = 99 ∷ 111 ∷ 110 ∷ 110 ∷ 32 ∷ []

abbrev pub say_text : Text
say_text = 32 ∷ 115 ∷ 97 ∷ 121 ∷ 58 ∷ []

-- To all connections, and to those with another port.
abbrev pub tell_all : Text → List TcpConnection → List Written
tell_all msg [] = []
tell_all msg (c ∷ cs) = write_bytes c msg ++ tell_all msg cs

abbrev pub tell_others : ℕ → Text → List TcpConnection → List Written
tell_others port msg [] = []
tell_others port msg (c ∷ cs) =
    (if get_port c == port then [] else write_bytes c msg) ++ tell_others port msg cs

-- The first connection with the port leaves.
abbrev pub leave : ℕ → List TcpConnection → List TcpConnection
leave port [] = []
leave port (c ∷ cs) = let rest = leave port cs in if get_port c == port then cs else c ∷ rest

-- `buf[bytes-1] == '\n'`
abbrev pub ends_line : Text → Bool
ends_line [] = false
ends_line (b ∷ []) = b == 10
ends_line (b ∷ c ∷ cs) = ends_line (c ∷ cs)

module _ (to_string : ℕ → Text) where
  -- `c_callback`
  unfoldable pub c_callback : TcpConnection → List TcpConnection → Callback
  c_callback conn active =
      returns (active ++ conn ∷ [])
        (tell_all (conn_text ++ to_string (get_port conn) ++ join_text) active)

  -- The loop of `r_callback`, on what the kernel answers to the reads.
  unfoldable pub read_loop :
      TcpConnection → List TcpConnection → Text → List (Option Text) → Callback
  read_loop conn active msg [] = waits
  read_loop conn active msg (answer ∷ answers) = elim (read_bytes conn answer) [
    | none ↦ returns (leave (get_port conn) active) []
    | some bytes ↦ elim bytes [
      | [] ↦ returns (leave (get_port conn) active) []
      | b ∷ bs ↦ elim (ends_line (b ∷ bs)) [
        | true ↦ returns active (tell_others (get_port conn) (msg ++ b ∷ bs) active)
        | false ↦ read_loop conn active (msg ++ b ∷ bs) answers
      ]
    ]
  ]

  -- `r_callback`
  unfoldable pub r_callback : TcpConnection → List TcpConnection → List (Option Text) → Callback
  unfolding read_loop
  r_callback conn active answers =
      read_loop conn active (to_string (get_port conn) ++ say_text) answers
