-- ===== src/Prac/Server/Turns.antt =====
-- A turn of the loop of prac/server.cpp keeps the invariant of its tables.
use cpp_prac.Prelude.{
  ℕ, zero, suc, ◌+◌, ◌≤◌, Bool, true, false, ◌||◌, Option, none, some, List, [], ◌∷◌, ◌==◌,
  if◌then◌else◌, ◌≡◌, refl, ap, sym, ◌∙◌, get_elem?, replicate, inl, inr, Bool-cases, Option-cases,
  arith,
}
use cpp_prac.Prelude.Int.{pos}
use cpp_prac.Prac.Server.{
  PollSlot, Server, Bits, Answers, free, is_fd, process_conn_once, new_client, lose_client,
  handle_slot, handle_slots, slot_max, poll_turn, first_server,
}
use cpp_prac.Prac.Server.Slots.{
  fd_weight, used, AllSlots, IsServer, filled, IsKept, IsKept-refl, forget-IsKept, take_in-IsKept,
}

abbrev is_some {ℓ} : {A : Type ℓ} → Option A → Bool
is_some none = false
is_some (some a) = true

-- A slot with no descriptor is not ready.
abbrev pub fits : Bits → PollSlot → Bool
fits r slot = if r.pollin || r.pollerr then is_some slot.fd else true

abbrev pub Fits : ℕ → Answers → Server → Type 0
Fits i k s =
    (j : ℕ) (slot : PollSlot)
    → i ≤ j
    → get_elem? s.slots j ≡ some slot
    → fits (k.revents j) slot ≡ true

-- `accept` never returns the descriptor of the socket that listens.
abbrev pub IsNew : Answers → Server → Type 0
IsNew k s = (j c : ℕ) → k.accepted j ≡ some c → (c == s.sock_fd) ≡ false

has_fd : (slot : PollSlot) → is_some slot.fd ≡ true → fd_weight slot ≡ 1
has_fd slot e = ground arith

new_client-IsKept :
    (i : ℕ) (answer : Option ℕ) (s : Server)
    → ((c : ℕ) → answer ≡ some c → (c == s.sock_fd) ≡ false)
    → IsServer s
    → IsKept i s (new_client answer s).0
unfolding new_client
new_client-IsKept i none s new v = IsKept-refl i s v
new_client-IsKept i (some c) s new v = take_in-IsKept i c s (new c refl) v

process-IsKept :
    (i : ℕ) (slot : PollSlot) (bytes : Option (List ℕ)) (s : Server)
    → get_elem? s.slots i ≡ some slot
    → fd_weight slot ≡ 1
    → IsServer s
    → IsKept i s (process_conn_once i slot bytes s).0
unfolding process_conn_once
process-IsKept i slot none s e has_one v = forget-IsKept i slot s e has_one v
process-IsKept i slot (some []) s e has_one v = forget-IsKept i slot s e has_one v
process-IsKept i slot (some (b ∷ bs)) s e has_one v = IsKept-refl i s v

handle_slot-IsKept :
    (i : ℕ) (slot : PollSlot) (k : Answers) (s : Server)
    → get_elem? s.slots i ≡ some slot
    → fits (k.revents i) slot ≡ true
    → IsNew k s
    → IsServer s
    → IsKept i s (handle_slot i slot k s).0.0
unfolding handle_slot lose_client
handle_slot-IsKept i slot k s e fit new v = elim (Bool-cases (k.revents i).pollin) [
  | inl is_in ↦ elim (Bool-cases (is_fd slot.fd s.sock_fd)) [
    | inl listens ↦ rw (is_in, listens) (new_client-IsKept i (k.accepted i) s (new i) v)
    | inr other ↦
        rw (is_in, other) (process-IsKept i slot (k.bytes i) s e (has_fd slot (ground arith)) v)
  ]
  | inr no_in ↦ elim (Bool-cases (k.revents i).pollerr) [
    | inl is_err ↦ rw (no_in, is_err) (forget-IsKept i slot s e (has_fd slot (ground arith)) v)
    | inr no_err ↦ rw (no_in, no_err) (IsKept-refl i s v)
  ]
]

fits_filled :
    (r : Bits) (c : ℕ) (slot : PollSlot) → some (filled c) ≡ some slot → fits r slot ≡ true
fits_filled r c slot e = grind arith

Fits-later : (i : ℕ) (k : Answers) (s s' : Server) → IsKept i s s' → Fits i k s → Fits (i + 1) k s'
Fits-later i k s s' kept fit j slot h e = elim (kept.later j (omega arith)) [
  | inl same ↦ fit j slot (omega arith) (sym same ∙ e)
  | inr (c, new) ↦ fits_filled (k.revents j) c slot (sym new ∙ e)
]

IsNew-later : (i : ℕ) (k : Answers) (s s' : Server) → IsKept i s s' → IsNew k s → IsNew k s'
IsNew-later i k s s' kept new j c e = rw kept.sock (new j c e)

handle_slots-IsServer :
    (rounds i n_ready : ℕ) (k : Answers) (s : Server)
    → Fits i k s
    → IsNew k s
    → IsServer s
    → IsServer (handle_slots rounds i n_ready k s).0
unfolding handle_slots
handle_slots-IsServer zero i n_ready k s fit new v = v
handle_slots-IsServer (suc rounds) i zero k s fit new v = v
handle_slots-IsServer (suc rounds) i (suc n) k s fit new v =
    elim (Option-cases (get_elem? s.slots i)) [
      | inl e ↦ rw (handle_slots, e) v
      | inr (slot, e) ↦
          let run = handle_slot i slot k s in
          let kept = handle_slot-IsKept i slot k s e (fit i slot (omega arith) e) new v in
          rw (handle_slots, e)
            (handle_slots-IsServer rounds (i + 1) (if run.1 then n else suc n) k run.0.0
              (Fits-later i k s run.0.0 kept fit) (IsNew-later i k s run.0.0 kept new) kept.server)
    ]

AllSlots-replicate : (sock n : ℕ) → AllSlots sock (replicate n free) × (used (replicate n free) ≡ 0)
AllSlots-replicate sock zero = (tt, refl)
AllSlots-replicate sock (suc n) =
    let (all, no_client) = AllSlots-replicate sock n in ((refl, all), omega (arith, no_client))

-- The tables are right before the first turn.
first_server-IsServer : (sock : ℕ) → IsServer (first_server sock)
unfolding first_server
first_server-IsServer sock =
    let (all, no_client) = AllSlots-replicate sock 1023 in
    record { slots = (ground arith, all); number = ap pos (omega (arith, no_client)) }

-- A turn that starts with right tables ends with right tables: every slot is free, has a client under
-- the same descriptor in both arrays, or has the socket that listens, and the number of the clients is
-- one less than that of the slots with a descriptor. The kernel is to report nothing for a slot without
-- a descriptor, and never the listening socket as a new client. A POLLERR of the listening socket is
-- covered: its slot is freed then as that of a client is.
pub poll_turn-IsServer :
    (n_ready : Option ℕ) (k : Answers) (s : Server)
    → Fits 0 k s
    → IsNew k s
    → IsServer s
    → IsServer (poll_turn n_ready k s).0
unfolding poll_turn
poll_turn-IsServer none k s fit new v = v
poll_turn-IsServer (some n_ready) k s fit new v =
    handle_slots-IsServer slot_max 0 n_ready k s fit new v
