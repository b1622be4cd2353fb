-- ===== src/Network/Poller/Slots.antt =====
-- Registration in network/poller.cpp.
use cpp_prac.Prelude.{
  ℕ, suc, ◌==◌, zero, Bool, true, false, not, ◌&&◌, ◌||◌, some, List, [], ◌∷◌, ◌≡◌, ◌⊎◌, inl, inr,
  refl, ap, Bool-cases, Option-cases, set, arith,
}
use cpp_prac.Network.Poller.{
  PollFd, key, is_free, register, unregister, PollImpl, register_socket, unregister_socket,
}

-- Whether a descriptor is in the table.
abbrev pub holds : ℕ → List PollFd → Bool
holds n [] = false
holds n (s ∷ ss) = (key s.fd == suc n) || holds n ss

-- Whether no entry is free.
abbrev pub is_full : List PollFd → Bool
is_full [] = true
is_full (s ∷ ss) = not (is_free s) && is_full ss

-- A free entry asks for no events.
abbrev pub IsTable : List PollFd → Type 0
IsTable [] = Unit
IsTable (s ∷ ss) = (is_free s ≡ true → s.events ≡ false) × IsTable ss

-- Entry `i` is free and those before it are not.
abbrev pub IsFirstFree : List PollFd → ℕ → Type 0
IsFirstFree [] i = ⊥
IsFirstFree (s ∷ ss) zero = is_free s ≡ true
IsFirstFree (s ∷ ss) (suc i) = (is_free s ≡ false) × IsFirstFree ss i

register_cases :
    (n : ℕ) (ss : List PollFd)
    → ((i : ℕ) × IsFirstFree ss i
        × (register (some n) ss ≡ set ss i (record { fd = some n; events = true })))
      ⊎ ((is_full ss ≡ true) × (register (some n) ss ≡ ss))
unfolding register
register_cases n [] = inr (refl, refl)
register_cases n (s ∷ ss) = elim (Bool-cases (is_free s)) [
  | inl free ↦ inl (0, free, simp free)
  | inr taken ↦ elim (register_cases n ss) [
    | inl (i, first, e) ↦ inl (suc i, (taken, first), simp (taken, e))
    | inr (full, e) ↦ inr (simp (taken, full), simp (taken, e))
  ]
]

unregister-absent : (n : ℕ) (ss : List PollFd) → holds n ss ≡ false → unregister (some n) ss ≡ ss
unfolding unregister
unregister-absent n [] h = refl
unregister-absent n (s ∷ ss) h = grind (arith, unregister-absent n ss)

unregister-register_lem :
    (n : ℕ) (ss : List PollFd)
    → IsTable ss
    → holds n ss ≡ false
    → unregister (some n) (register (some n) ss) ≡ ss
unfolding unregister register
unregister-register_lem n [] t h = refl
unregister-register_lem n (s ∷ ss) t h = elim (Option-cases s.fd) [
  | inl free ↦ grind (arith, free)
  | inr (k, taken) ↦ grind (arith, taken, unregister-register_lem n ss t.1)
]

-- A descriptor is registered in the first free entry, and no other entry changes; where all entries
-- are taken, the table stays as it is and the caller is not told.
pub register_socket_cases :
    (p : PollImpl) (n : ℕ)
    → ((i : ℕ) × IsFirstFree p.poll_fd i
        × (register_socket p (some n)
            ≡ record p { poll_fd = set p.poll_fd i (record { fd = some n; events = true }) }))
      ⊎ ((is_full p.poll_fd ≡ true) × (register_socket p (some n) ≡ p))
unfolding register_socket
register_socket_cases p n = elim (register_cases n p.poll_fd) [
  | inl (i, first, e) ↦ inl (i, first, ap (λ ss. record p { poll_fd = ss }) e)
  | inr (full, e) ↦ inr (full, ap (λ ss. record p { poll_fd = ss }) e)
]

-- Where free entries ask for no events, the registration of a descriptor that is not in the table is
-- undone by its unregistration.
unregister-register :
    (p : PollImpl) (n : ℕ)
    → IsTable p.poll_fd
    → holds n p.poll_fd ≡ false
    → unregister_socket (register_socket p (some n)) (some n) ≡ p
unfolding unregister_socket register_socket
unregister-register p n t h =
    ap (λ ss. record p { poll_fd = ss }) (unregister-register_lem n p.poll_fd t h)
