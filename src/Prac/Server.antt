-- ===== src/Prac/Server.antt =====
-- prac/server.cpp: the server that hands on what a client says to the other clients. The arrays
-- `fd_arr` and `connected_fds` have the same indices, and are one list of slots. A descriptor is a
-- number, and `none` is -1; what the kernel answers is an argument, and what it is asked is a list.
pub mod Relay
pub mod Slots
pub mod Turns
mod Examples
use cpp_prac.Prelude.{
  ℕ, zero, suc, ◌+◌, ◌-◌, Bool, true, false, Option, none, some, List, [], ◌∷◌, ◌++◌, ◌==◌,
  if◌then◌else◌, get_elem?, set, replicate,
}
use mathlib.Core.Option
use cpp_prac.Prelude.Int.{ℤ, pos, negsuc}

pub record PollSlot : Type 0 where
  pub fd : Option ℕ
  pub events : Bool
  pub client : Option ℕ

pub record Server : Type 0 where
  pub sock_fd : ℕ
  pub slots : List PollSlot
  pub connected_num : ℤ

pub data Request : Type 0 where
  accepts : Request
  reads : Option ℕ → Request
  writes : ℕ → List ℕ → Request
  closes : Option ℕ → Request

-- The bits POLLIN and POLLERR.
pub record Bits : Type 0 where
  pub pollin : Bool
  pub pollerr : Bool

-- What `poll`, `accept` and `read` answer in a turn, by the index of the slot that asks.
pub record Answers : Type 0 where
  pub revents : ℕ → Bits
  pub accepted : ℕ → Option ℕ
  pub bytes : ℕ → Option (List ℕ)

abbrev pub free : PollSlot
free = record { fd = none; events = false; client = none }

abbrev pub slot_max : ℕ
slot_max = 1024

-- The state before the loop, for the socket that listens.
unfoldable pub first_server : ℕ → Server
first_server sock = record {
  sock_fd = sock;
  slots = record { fd = some sock; events = true; client = none } ∷ replicate 1023 free;
  connected_num = pos 0;
}

abbrev pub one_more : ℤ → ℤ
one_more (pos n) = pos (n + 1)
one_more (negsuc zero) = pos 0
one_more (negsuc (suc n)) = negsuc n

abbrev pub one_less : ℤ → ℤ
one_less (pos zero) = negsuc 0
one_less (pos (suc n)) = pos n
one_less (negsuc n) = negsuc (suc n)

abbrev pub is_number : ℕ → ℤ → Bool
is_number n (pos m) = n == m
is_number n (negsuc m) = false

abbrev pub is_fd : Option ℕ → ℕ → Bool
is_fd none f = false
is_fd (some c) f = c == f

-- "someone->say: "
abbrev pub say : List ℕ
say = 115 ∷ 111 ∷ 109 ∷ 101 ∷ 111 ∷ 110 ∷ 101 ∷ 45 ∷ 62 ∷ 115 ∷ 97 ∷ 121 ∷ 58 ∷ 32 ∷ []

-- The loop that hands a message on; it is left when `finished` reaches the number of the clients.
unfoldable pub relay : Option ℕ → List ℕ → ℤ → ℕ → List PollSlot → List Request
relay c msg num finished [] = []
relay c msg num finished (slot ∷ slots) = elim slot.client [
  | none ↦ elim (is_number finished num) [ true ↦ [] | false ↦ relay c msg num finished slots ]
  | some f ↦ elim (is_fd c f) [
    | true ↦ relay c msg num finished slots
    | false ↦ writes f msg ∷ elim (is_number (suc finished) num) [
      | true ↦ []
      | false ↦ relay c msg num (suc finished) slots
    ]
  ]
]

-- The slot of a client that has closed its connection.
abbrev pub forget : ℕ → PollSlot → Server → Server
forget i slot s = record s {
  slots = set s.slots i (record slot { fd = none; client = none });
  connected_num = one_less s.connected_num;
}

-- `processConnOnce`; the terminating zero is written with the message.
unfoldable pub process_conn_once : ℕ → PollSlot → Option (List ℕ) → Server → Server × List Request
process_conn_once i slot none s = (forget i slot s, reads slot.fd ∷ [])
process_conn_once i slot (some []) s = (forget i slot s, reads slot.fd ∷ [])
process_conn_once i slot (some (b ∷ bs)) s =
    (s, reads slot.fd ∷ relay slot.fd (say ++ (b ∷ bs) ++ 0 ∷ []) s.connected_num 0 s.slots)

-- The first free slot takes a new client.
unfoldable pub place : ℕ → List PollSlot → Option (List PollSlot)
place c [] = none
place c (slot ∷ slots) = elim slot.fd [
  | none ↦ some (record { fd = some c; events = true; client = some c } ∷ slots)
  | some f ↦ Option.map (λ ss. slot ∷ ss) (place c slots)
]

abbrev pub take_in : ℕ → Server → Server
take_in c s = elim (place c s.slots) [
  | none ↦ s
  | some slots ↦ record s { slots = slots; connected_num = one_more s.connected_num }
]

unfoldable pub new_client : Option ℕ → Server → Server × List Request
new_client none s = (s, accepts ∷ [])
new_client (some c) s = (take_in c s, accepts ∷ [])

-- A slot after a POLLERR: the descriptor is overwritten before it is closed.
unfoldable pub lose_client : ℕ → PollSlot → Server → Server × List Request
lose_client i slot s = (forget i slot s, closes none ∷ [])

-- One slot in a turn, and whether it was ready.
unfoldable pub handle_slot : ℕ → PollSlot → Answers → Server → (Server × List Request) × Bool
handle_slot i slot k s =
    if (k.revents i).pollin
    then (
      (if is_fd slot.fd s.sock_fd
          then new_client (k.accepted i) s
          else process_conn_once i slot (k.bytes i) s),
      true,
    )
    else if (k.revents i).pollerr
    then (lose_client i slot s, true)
    else ((s, []), false)

-- The slots from `i` on, of which `n_ready` are ready.
unfoldable pub handle_slots : ℕ → ℕ → ℕ → Answers → Server → Server × List Request
handle_slots zero i n_ready k s = (s, [])
handle_slots (suc rounds) i zero k s = (s, [])
handle_slots (suc rounds) i (suc n) k s = elim (get_elem? s.slots i) [
  | none ↦ (s, [])
  | some slot ↦
      let ((s', calls), was_ready) = handle_slot i slot k s in
      let (s'', calls') = handle_slots rounds (i + 1) (if was_ready then n else suc n) k s' in
      (s'', calls ++ calls')
]

-- A turn of the loop; `none` is an error in poll.
unfoldable pub poll_turn : Option ℕ → Answers → Server → Server × List Request
poll_turn none k s = (s, [])
poll_turn (some n_ready) k s = handle_slots slot_max 0 n_ready k s
