-- ===== src/Network/TcpServer/Keys.antt =====
-- The result map of network/poller.cpp has every key once, in order.
use cpp_prac.Prelude.{
  ℕ, suc, ◌≤◌, ◌==◌, Bool, false, ◌||◌, Option, none, some, List, [], ◌∷◌, ◌≡◌, inl, inr, refl, ltb,
  Bool-cases, arith,
}
use cpp_prac.Network.Poller.{
  PollFd, IoState, key, Revents, ReventsMap, insert, classify, record_state, count_down, poll_loop,
  PollImpl, poll,
}

-- The result map is in the order of its keys, from `n` on.
unfoldable pub From : ℕ → ReventsMap → Type 0
From n [] = Unit
From n ((k, v) ∷ m) = (n ≤ key k) × From (suc (key k)) m

-- Whether a key is among the entries.
abbrev pub has_entry : ℕ → ReventsMap → Bool
has_entry n [] = false
has_entry n ((k, v) ∷ m) = (key k == n) || has_entry n m

From-later : (n n' : ℕ) (m : ReventsMap) → n' ≤ n → From n m → From n' m
unfolding From
From-later n n' [] h v = tt
From-later n n' ((k, w) ∷ m) h v = (omega (arith, v.0), v.1)

insert-From :
    (n : ℕ) (k : Option ℕ) (v : IoState) (m : ReventsMap)
    → n ≤ key k
    → From n m
    → From n (insert k v m)
unfolding From insert
insert-From n k v [] h f = (h, tt)
insert-From n k v ((k', v') ∷ m) h f = elim (Bool-cases (key k == key k')) [
  | inl same ↦ simp same f
  | inr other ↦ elim (Bool-cases (ltb (key k) (key k'))) [
    | inl before ↦ simp (other, before) (h, (ground arith, f.1))
    | inr behind ↦ simp (other, behind) (f.0, insert-From (suc (key k')) k v m (ground arith) f.1)
  ]
]

record-From :
    (k : Option ℕ) (c : Option IoState) (m : ReventsMap) → From 0 m → From 0 (record_state k c m)
unfolding record_state
record-From k none m f = f
record-From k (some v) m f = insert-From 0 k v m (omega arith) f

poll_loop-From :
    (n : ℕ) (ss : List PollFd) (rs : List Revents) (m : ReventsMap)
    → From 0 m
    → From 0 (poll_loop n ss rs m).1
unfolding poll_loop
poll_loop-From n [] rs m f = f
poll_loop-From n (s ∷ ss) [] m f = f
poll_loop-From n (s ∷ ss) (r ∷ rs) m f =
    let m' = record_state s.fd (classify r) m in
    let f' = record-From s.fd (classify r) m f in
    let n' = count_down (classify r) n in
    elim (Bool-cases (n' == 0)) [
      | inl done ↦ simp done f'
      | inr more ↦ simp more (poll_loop-From n' ss rs m' f')
    ]

pub poll-From : (p : PollImpl) (n : ℕ) (rs : List Revents) → From 0 (poll p n rs).revents_map
unfolding poll From
poll-From p n rs = elim (Bool-cases (ltb 0 n)) [
  | inl e ↦ simp e (poll_loop-From n p.poll_fd rs [] tt)
  | inr e ↦ simp e tt
]

pub From-no_entry : (n n' : ℕ) (m : ReventsMap) → n' ≤ n → From (suc n) m → has_entry n' m ≡ false
unfolding From
From-no_entry n n' [] h f = refl
From-no_entry n n' ((k, v) ∷ m) h f = ground (arith, From-no_entry (key k) n' m, f.0, f.1)
