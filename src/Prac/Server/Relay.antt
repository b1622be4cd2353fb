-- ===== src/Prac/Server/Relay.antt =====
-- Who gets a message from the server of prac/server.cpp.
use cpp_prac.Prelude.{
  ℕ, zero, suc, ◌+◌, ◌≤◌, ◌<◌, true, false, none, some, List, [], ◌∷◌, ◌++◌, map, length, ◌==◌, ◌≡◌,
  refl, ap, get_elem?, arith,
}
use cpp_prac.Prelude.Int.{pos}
use cpp_prac.Prac.Server.{PollSlot, Server, reads, writes, is_fd, say, relay, process_conn_once}

-- The clients in the slots, and those other than `c`.
abbrev pub weight : PollSlot → ℕ
weight slot = elim slot.client [ none ↦ 0 | some f ↦ 1 ]

abbrev pub clients : List PollSlot → ℕ
clients [] = 0
clients (slot ∷ slots) = weight slot + clients slots

abbrev pub others : ℕ → List PollSlot → List ℕ
others c [] = []
others c (slot ∷ slots) =
    let rest = others c slots in
    elim slot.client [ none ↦ rest | some f ↦ elim (c == f) [ true ↦ rest | false ↦ f ∷ rest ] ]

relay-others :
    (c : ℕ) (msg : List ℕ) (n finished : ℕ) (slots : List PollSlot)
    → finished + length (others c slots) < n
    → relay (some c) msg (pos n) finished slots ≡ map (λ f. writes f msg) (others c slots)
unfolding relay
relay-others c msg n finished [] few = refl
relay-others c msg n finished (slot ∷ slots) few =
    ground (arith, relay-others c msg n finished slots, relay-others c msg n (suc finished) slots)

others-clients : (c : ℕ) (slots : List PollSlot) → length (others c slots) ≤ clients slots
others-clients c [] = omega arith
others-clients c (slot ∷ slots) = ground (arith, others-clients c slots)

client_of :
    (s slot : PollSlot) (c : ℕ) → some s ≡ some slot → slot.client ≡ some c → s.client ≡ some c
client_of s slot c e is_c = grind arith

others_head :
    (c : ℕ) (s : PollSlot) (slots : List PollSlot)
    → s.client ≡ some c
    → length (others c (s ∷ slots)) < clients (s ∷ slots)
others_head c s slots e = rw e (grind (arith, others-clients c slots))

others_fewer :
    (c i : ℕ) (slot : PollSlot) (slots : List PollSlot)
    → get_elem? slots i ≡ some slot
    → slot.client ≡ some c
    → length (others c slots) < clients slots
others_fewer c i slot [] e is_c = ground arith
others_fewer c zero slot (s ∷ slots) e is_c = others_head c s slots (client_of s slot c e is_c)
others_fewer c (suc i) slot (s ∷ slots) e is_c = ground (arith, others_fewer c i slot slots e is_c)

-- Where the number of the clients is right, a message of a client, in any slot, is written once to
-- every other client, in the order of the slots, with the words before it and a zero behind it, and
-- nothing else happens.
pub process_conn_once-others :
    (s : Server) (i : ℕ) (slot : PollSlot) (c b : ℕ) (bs : List ℕ)
    → get_elem? s.slots i ≡ some slot
    → slot.fd ≡ some c
    → slot.client ≡ some c
    → s.connected_num ≡ pos (clients s.slots)
    → process_conn_once i slot (some (b ∷ bs)) s
      ≡ (s, reads (some c) ∷ map (λ f. writes f (say ++ (b ∷ bs) ++ 0 ∷ [])) (others c s.slots))
unfolding process_conn_once
process_conn_once-others s i slot c b bs e is_fd is_c num =
    let few : 0 + length (others c s.slots) < clients s.slots =
      omega (arith, others_fewer c i slot s.slots e is_c) in
    ap (λ w. (s, w))
      (rw (is_fd, num)
        (ap (λ w. reads (some c) ∷ w)
          (relay-others c (say ++ (b ∷ bs) ++ 0 ∷ []) (clients s.slots) 0 s.slots few)))
