-- ===== src/Prac/Server/Slots.antt =====
-- The slots of the server of prac/server.cpp, and the invariant of its tables.
use cpp_prac.Prelude.{
  ℕ, zero, suc, ◌+◌, ◌<◌, Bool, true, false, not, ◌&&◌, Option, none, some, List, [], ◌∷◌, ◌==◌,
  ◌≡◌, ◌≢◌, refl, ap, sym, ◌∙◌, get_elem?, set, get_elem?-set_ne, ◌⊎◌, inl, inr, Option-cases,
  arith,
}
use mathlib.Core.Option
use cpp_prac.Prelude.Int.{ℤ, pos, negsuc}
use cpp_prac.Prac.Server.{PollSlot, Server, one_more, one_less, forget, place, take_in}

-- A slot is free, has a client, or has the socket `sock` that listens.
abbrev pub is_slot : ℕ → PollSlot → Bool
is_slot sock slot = elim slot.fd [
  | none ↦ elim slot.client [ none ↦ true | some c ↦ false ]
  | some f ↦ elim slot.client [ none ↦ f == sock | some c ↦ (f == c) && not (f == sock) ]
]

abbrev pub AllSlots : ℕ → List PollSlot → Type 0
AllSlots sock [] = Unit
AllSlots sock (slot ∷ slots) = (is_slot sock slot ≡ true) × AllSlots sock slots

-- The slots that have a descriptor.
abbrev pub fd_weight : PollSlot → ℕ
fd_weight slot = elim slot.fd [ none ↦ 0 | some f ↦ 1 ]

abbrev pub used : List PollSlot → ℕ
used [] = 0
used (slot ∷ slots) = fd_weight slot + used slots

-- The number of the clients is one less than that of the slots with a descriptor.
pub record IsServer (s : Server) : Type 0 where
  pub slots : AllSlots s.sock_fd s.slots
  pub number : one_more s.connected_num ≡ pos (used s.slots)

pub AllSlots-get :
    (sock i : ℕ) (ss : List PollSlot) (slot : PollSlot)
    → AllSlots sock ss
    → get_elem? ss i ≡ some slot
    → is_slot sock slot ≡ true
AllSlots-get sock i [] slot v e = ground arith
AllSlots-get sock zero (s ∷ ss) slot v e = grind (arith, v.0)
AllSlots-get sock (suc i) (s ∷ ss) slot v e = AllSlots-get sock i ss slot v.1 e

AllSlots-set :
    (sock i : ℕ) (ss : List PollSlot) (slot : PollSlot)
    → AllSlots sock ss
    → is_slot sock slot ≡ true
    → AllSlots sock (set ss i slot)
AllSlots-set sock i [] slot v e = tt
AllSlots-set sock zero (s ∷ ss) slot v e = (e, v.1)
AllSlots-set sock (suc i) (s ∷ ss) slot v e = (v.0, AllSlots-set sock i ss slot v.1 e)

fd_weight_of : (s slot : PollSlot) → some s ≡ some slot → fd_weight s ≡ fd_weight slot
fd_weight_of s slot e = grind arith

used-set :
    (i : ℕ) (ss : List PollSlot) (slot slot' : PollSlot)
    → get_elem? ss i ≡ some slot
    → used (set ss i slot') + fd_weight slot ≡ used ss + fd_weight slot'
used-set i [] slot slot' e = ground arith
used-set zero (s ∷ ss) slot slot' e = omega (arith, fd_weight_of s slot e)
used-set (suc i) (s ∷ ss) slot slot' e = omega (arith, used-set i ss slot slot' e)

-- What a free slot is filled with.
abbrev pub filled : ℕ → PollSlot
filled c = record { fd = some c; events = true; client = some c }

abbrev pub Placed : ℕ → ℕ → List PollSlot → Option (List PollSlot) → Type 0
Placed sock c ss none = Unit
Placed sock c ss (some ss') =
    AllSlots sock ss'
    × (used ss' ≡ used ss + 1)
    × ((j : ℕ) → (get_elem? ss' j ≡ get_elem? ss j) ⊎ (get_elem? ss' j ≡ some (filled c)))

Placed-later :
    (sock c : ℕ) (s : PollSlot) (ss : List PollSlot) (r : Option (List PollSlot))
    → is_slot sock s ≡ true
    → Placed sock c ss r
    → Placed sock c (s ∷ ss) (Option.map (λ t. s ∷ t) r)
Placed-later sock c s ss none v p = tt
Placed-later sock c s ss (some ss') v (all, more, same) = ((v, all), omega (arith, more), spot)
  where
    spot :
        (j : ℕ)
        → (get_elem? (s ∷ ss') j ≡ get_elem? (s ∷ ss) j) ⊎ (get_elem? (s ∷ ss') j ≡ some (filled c))
    spot zero = inl refl
    spot (suc j) = same j

place_none : (sock c : ℕ) → Placed sock c [] (place c [])
unfolding place
place_none sock c = tt

place_here :
    (c : ℕ) (s : PollSlot) (ss : List PollSlot)
    → s.fd ≡ none
    → place c (s ∷ ss) ≡ some (filled c ∷ ss)
unfolding place
place_here c s ss e = rw e refl

place_later :
    (c f : ℕ) (s : PollSlot) (ss : List PollSlot)
    → s.fd ≡ some f
    → place c (s ∷ ss) ≡ Option.map (λ t. s ∷ t) (place c ss)
unfolding place
place_later c f s ss e = simp e refl

place_first :
    (sock c : ℕ) (s : PollSlot) (ss : List PollSlot)
    → s.fd ≡ none
    → (c == sock) ≡ false
    → AllSlots sock (s ∷ ss)
    → Placed sock c (s ∷ ss) (some (filled c ∷ ss))
place_first sock c s ss e ne v = ((ground arith, v.1), grind (arith, v.0), spot)
  where
    spot :
        (j : ℕ)
        → (get_elem? (filled c ∷ ss) j ≡ get_elem? (s ∷ ss) j)
          ⊎ (get_elem? (filled c ∷ ss) j ≡ some (filled c))
    spot zero = inr refl
    spot (suc j) = inl refl

place-Placed :
    (sock c : ℕ) (ss : List PollSlot)
    → (c == sock) ≡ false
    → AllSlots sock ss
    → Placed sock c ss (place c ss)
place-Placed sock c [] ne v = place_none sock c
place-Placed sock c (s ∷ ss) ne v = elim (Option-cases s.fd) [
  | inl e ↦ rw (place_here c s ss e) (place_first sock c s ss e ne v)
  | inr (f, e) ↦
      rw (place_later c f s ss e)
        (Placed-later sock c s ss (place c ss) v.0 (place-Placed sock c ss ne v.1))
]

-- One slot has been dealt with: the invariant holds, and a later slot is as it was or has a new client.
pub record IsKept (i : ℕ) (s s' : Server) : Type 0 where
  pub server : IsServer s'
  pub sock : s'.sock_fd ≡ s.sock_fd
  pub later :
      (j : ℕ)
      → i < j
      → (get_elem? s'.slots j ≡ get_elem? s.slots j)
        ⊎ ((c : ℕ) × (get_elem? s'.slots j ≡ some (filled c)))

pub IsKept-refl : (i : ℕ) (s : Server) → IsServer s → IsKept i s s
IsKept-refl i s v = record { server = v; sock = refl; later = λ j h. inl refl }

one_more-one_less : (z : ℤ) (n : ℕ) → one_more z ≡ pos (n + 1) → one_more (one_less z) ≡ pos n
one_more-one_less (pos zero) n e = ground arith
one_more-one_less (pos (suc k)) n e = ground arith
one_more-one_less (negsuc zero) n e = ground arith
one_more-one_less (negsuc (suc k)) n e = ground arith

is_later : (i j : ℕ) → i < j → i ≢ j
is_later i j h e = absurd (omega (arith, h, e))

pub forget-IsKept :
    (i : ℕ) (slot : PollSlot) (s : Server)
    → get_elem? s.slots i ≡ some slot
    → fd_weight slot ≡ 1
    → IsServer s
    → IsKept i s (forget i slot s)
forget-IsKept i slot s e has_fd v =
    let slot' : PollSlot = record slot { fd = none; client = none } in
    record {
      server = record {
        slots = AllSlots-set s.sock_fd i s.slots slot' v.slots refl;
        number =
            one_more-one_less s.connected_num (used (set s.slots i slot'))
              (v.number ∙ ap pos (omega (arith, used-set i s.slots slot slot' e, has_fd)));
      };
      sock = refl;
      later = λ j h. inl (get_elem?-set_ne s.slots i j slot' (is_later i j h));
    }

took :
    (i c : ℕ) (s : Server) (r : Option (List PollSlot))
    → IsServer s
    → Placed s.sock_fd c s.slots r
    → IsKept i s (elim r [
      | none ↦ s
      | some slots ↦ record s { slots = slots; connected_num = one_more s.connected_num }
    ])
took i c s none v p = IsKept-refl i s v
took i c s (some slots) v (all, more, spot) = record {
  server = record { slots = all; number = ap one_more v.number ∙ ap pos (sym more) };
  sock = refl;
  later = λ j h. elim (spot j) [ inl e ↦ inl e | inr e ↦ inr (c, e) ];
}

pub take_in-IsKept :
    (i c : ℕ) (s : Server) → (c == s.sock_fd) ≡ false → IsServer s → IsKept i s (take_in c s)
take_in-IsKept i c s ne v =
    took i c s (place c s.slots) v (place-Placed s.sock_fd c s.slots ne v.slots)
