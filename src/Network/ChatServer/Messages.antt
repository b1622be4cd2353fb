-- ===== src/Network/ChatServer/Messages.antt =====
-- Who gets what a client of the chat server of network/server.cpp says, and who stays.
use cpp_prac.Prelude.{
  ℕ, Bool, true, false, not, ◌||◌, Option, none, some, List, [], ◌∷◌, ◌++◌, ◌==◌, ◌≡◌, ◌≢◌,
}
use cpp_prac.Nnero.Logging.{Text}
use cpp_prac.Network.TcpConnection.{TcpConnection, Written, get_port}
use cpp_prac.Network.ChatServer.{ends_line}

-- Parts of a line: none is empty, and none ends a line.
abbrev pub is_part : Text → Bool
is_part [] = false
is_part (b ∷ bs) = not (ends_line (b ∷ bs))

abbrev pub AreParts : List Text → Type 0
AreParts [] = Unit
AreParts (t ∷ ts) = (is_part t ≡ true) × AreParts ts

abbrev pub concat : List Text → Text
concat [] = []
concat (t ∷ ts) = t ++ concat ts

-- The answers to a client that has closed its connection, and to an error.
abbrev pub is_stop : Option Text → Bool
is_stop none = true
is_stop (some []) = true
is_stop (some (b ∷ bs)) = false

-- Whether a port is among those of the connections, and that none is there twice.
abbrev pub has_port : ℕ → List TcpConnection → Bool
has_port port [] = false
has_port port (c ∷ cs) = (get_port c == port) || has_port port cs

abbrev pub AreDistinct : List TcpConnection → Type 0
AreDistinct [] = Unit
AreDistinct (c ∷ cs) = (has_port (get_port c) cs ≡ false) × AreDistinct cs

-- What the active connections receive, as a relation: each that is open and has another port than the
-- speaker gets the text once, in their order; one with the speaker's port and one that is closed get
-- nothing.
pub data Hears (port : ℕ) (text : Text) : List TcpConnection → List Written → Type 0 where
  nobody : Hears port text [] []
  listener :
      {c : TcpConnection} {cs : List TcpConnection} {ws : List Written}
      → c.socket.is_connected ≡ true
      → c.socket.addr.port ≢ port
      → Hears port text cs ws
      → Hears port text (c ∷ cs) (record { fd = c.socket.fd; bytes = text } ∷ ws)
  speaker :
      {c : TcpConnection} {cs : List TcpConnection} {ws : List Written}
      → c.socket.addr.port ≡ port
      → Hears port text cs ws
      → Hears port text (c ∷ cs) ws
  closed :
      {c : TcpConnection} {cs : List TcpConnection} {ws : List Written}
      → c.socket.is_connected ≡ false
      → Hears port text cs ws
      → Hears port text (c ∷ cs) ws
