-- ===== src/Network/Poller/Results.antt =====
-- The result map of network/poller.cpp.
use cpp_prac.Prelude.{
  ℕ, zero, suc, ◌+◌, ◌≤◌, ◌==◌, Bool, true, false, not, ◌&&◌, ◌||◌, ap, Option, some, none, List,
  [], ◌∷◌, ◌≡◌, inl, inr, refl, sym, ◌∙◌, Bool-cases, get_elem?, if◌then◌else◌, ltb, arith,
}
use mathlib.Core.Bool.{true≢false}
use cpp_prac.Network.Poller.{
  PollFd, Revents, IoState, read, write, error, free_slot, key, ReventsMap, insert, classify, after,
  record_state, count_down, poll_loop, PollImpl, poll,
}
use cpp_prac.Network.Poller.Slots.{holds}

abbrev pub lookup : Option ℕ → ReventsMap → Option IoState
lookup k [] = none
lookup k ((k', v) ∷ m) = if key k == key k' then some v else lookup k m

-- What the kernel's `poll` returns: the number of entries with an event, also one that the loop does
-- not test.
abbrev pub ready_count : List PollFd → List Revents → ℕ
ready_count (s ∷ ss) (r ∷ rs) =
    (if r.pollin || r.pollout || r.pollerr || r.hangup then 1 else 0) + ready_count ss rs
ready_count ss rs = 0

-- No descriptor is in two entries.
abbrev pub IsDistinct : List PollFd → Type 0
IsDistinct [] = Unit
IsDistinct (s ∷ ss) = ((n : ℕ) → s.fd ≡ some n → holds n ss ≡ false) × IsDistinct ss

-- The loop without its early end.
collect : List PollFd → List Revents → ReventsMap → ReventsMap
collect (s ∷ ss) (r ∷ rs) m = collect ss rs (record_state s.fd (classify r) m)
collect ss rs m = m

-- The entries after it.
clean : List PollFd → List Revents → List PollFd
clean (s ∷ ss) (r ∷ rs) = after s (classify r) ∷ clean ss rs
clean ss rs = ss

insert-lookup : (k : Option ℕ) (v : IoState) (m : ReventsMap) → lookup k (insert k v m) ≡ some v
unfolding insert
insert-lookup k v [] = ground arith
insert-lookup k v ((k', v') ∷ m) = grind (arith, insert-lookup k v m)

insert-lookup_ne :
    (k k' : Option ℕ) (v : IoState) (m : ReventsMap)
    → (key k == key k') ≡ false
    → lookup k (insert k' v m) ≡ lookup k m
unfolding insert
insert-lookup_ne k k' v [] h = ground arith
insert-lookup_ne k k' v ((k'', v') ∷ m) h = grind (arith, insert-lookup_ne k k' v m)

counted : (r : Revents) → Bool
counted r = r.pollin || r.pollout || r.pollerr || r.hangup

classify-none : (r : Revents) → counted r ≡ false → classify r ≡ none
unfolding classify counted
classify-none r h = ground arith

not_counted :
    (s : PollFd) (ss : List PollFd) (r : Revents) (rs : List Revents)
    → ready_count (s ∷ ss) (r ∷ rs) ≡ 0
    → (classify r ≡ none) × (ready_count ss rs ≡ 0)
unfolding counted
not_counted s ss r rs h = (classify-none r (grind arith), grind arith)

clean-none : (ss : List PollFd) (rs : List Revents) → ready_count ss rs ≡ 0 → clean ss rs ≡ ss
unfolding clean after
clean-none [] rs h = refl
clean-none (s ∷ ss) [] h = refl
clean-none (s ∷ ss) (r ∷ rs) h =
    let (quiet, rest) = not_counted s ss r rs h in simp (quiet, clean-none ss rs rest)

collect-none :
    (ss : List PollFd) (rs : List Revents) (m : ReventsMap)
    → ready_count ss rs ≡ 0
    → collect ss rs m ≡ m
unfolding collect record_state
collect-none [] rs m h = refl
collect-none (s ∷ ss) [] m h = refl
collect-none (s ∷ ss) (r ∷ rs) m h =
    let (quiet, rest) = not_counted s ss r rs h in simp (quiet, collect-none ss rs m rest)

-- What is left of the kernel's number covers the entries that are left.
count_down-ready :
    (r : Revents) (n k : ℕ)
    → (if r.pollin || r.pollout || r.pollerr || r.hangup then 1 else 0) + k ≤ n
    → k ≤ count_down (classify r) n
unfolding count_down classify
count_down-ready r n k h = ground arith

poll_loop-collect :
    (n : ℕ) (ss : List PollFd) (rs : List Revents) (m : ReventsMap)
    → ready_count ss rs ≤ n
    → poll_loop n ss rs m ≡ (clean ss rs, collect ss rs m)
unfolding poll_loop clean collect
poll_loop-collect n [] rs m h = refl
poll_loop-collect n (s ∷ ss) [] m h = refl
poll_loop-collect n (s ∷ ss) (r ∷ rs) m h =
    let m' = record_state s.fd (classify r) m in
    let n' = count_down (classify r) n in
    let left = count_down-ready r n (ready_count ss rs) h in
    elim (Bool-cases (n' == 0)) [
      | inl e ↦
          let done : ready_count ss rs ≡ 0 = grind (arith, left, e) in
          simp (e, clean-none ss rs done, collect-none ss rs m' done)
      | inr e ↦ simp (e, poll_loop-collect n' ss rs m' left)
    ]

lookup-record :
    (k : Option ℕ) (c : Option IoState) (m : ReventsMap)
    → lookup k m ≡ none
    → lookup k (record_state k c m) ≡ c
unfolding record_state
lookup-record k none m h = h
lookup-record k (some v) m h = insert-lookup k v m

lookup-record_ne :
    (k k' : Option ℕ) (c : Option IoState) (m : ReventsMap)
    → (key k == key k') ≡ false
    → lookup k (record_state k' c m) ≡ lookup k m
unfolding record_state
lookup-record_ne k k' none m h = refl
lookup-record_ne k k' (some v) m h = insert-lookup_ne k k' v m h

collect-absent :
    (n : ℕ) (ss : List PollFd) (rs : List Revents) (m : ReventsMap)
    → holds n ss ≡ false
    → lookup (some n) (collect ss rs m) ≡ lookup (some n) m
unfolding collect
collect-absent n [] rs m h = refl
collect-absent n (s ∷ ss) [] m h = refl
collect-absent n (s ∷ ss) (r ∷ rs) m h =
    collect-absent n ss rs (record_state s.fd (classify r) m) (ground arith)
    ∙ lookup-record_ne (some n) s.fd (classify r) m (ground arith)

or_true : (b : Bool) → (b || true) ≡ true
or_true b = ground arith

holds-get_elem? :
    (n i : ℕ) (ss : List PollFd) (s : PollFd)
    → get_elem? ss i ≡ some s
    → s.fd ≡ some n
    → holds n ss ≡ true
holds-get_elem? n i [] s h fd = ground arith
holds-get_elem? n zero (s' ∷ ss) s h fd = grind arith
holds-get_elem? n (suc i) (s' ∷ ss) s h fd = simp (holds-get_elem? n i ss s h fd, or_true)

other_key : (n : ℕ) (k : Option ℕ) → ¬ (k ≡ some n) → (key (some n) == key k) ≡ false
other_key n none h = ground arith
other_key n (some k) h = grind arith

record_at :
    (n : ℕ) (k : Option ℕ) (c c' : Option IoState) (m : ReventsMap)
    → k ≡ some n
    → c ≡ c'
    → lookup (some n) m ≡ none
    → lookup (some n) (record_state k c m) ≡ c'
record_at n k c c' m e e' h = simp e (lookup-record (some n) c m h ∙ e')

collect-present :
    (n i : ℕ) (ss : List PollFd) (rs : List Revents) (m : ReventsMap) (s : PollFd) (r : Revents)
    → IsDistinct ss
    → get_elem? ss i ≡ some s
    → get_elem? rs i ≡ some r
    → s.fd ≡ some n
    → lookup (some n) m ≡ none
    → lookup (some n) (collect ss rs m) ≡ classify r
unfolding collect
collect-present n i [] rs m s r d hs hr fd fresh = ground arith
collect-present n i (s' ∷ ss) [] m s r d hs hr fd fresh = ground arith
collect-present n zero (s' ∷ ss) (r' ∷ rs) m s r d hs hr fd fresh =
    let fd' : s'.fd ≡ some n = grind arith in
    collect-absent n ss rs (record_state s'.fd (classify r') m) (d.0 n fd')
    ∙ record_at n s'.fd (classify r') (classify r) m fd' (grind arith) fresh
collect-present n (suc i) (s' ∷ ss) (r' ∷ rs) m s r d hs hr fd fresh =
    collect-present n i ss rs (record_state s'.fd (classify r') m) s r d.1 hs hr fd (
      lookup-record_ne (some n) s'.fd (classify r') m
        (other_key n s'.fd (λ e. true≢false (sym (holds-get_elem? n i ss s hs fd) ∙ d.0 n e)))
      ∙ fresh)

clean-get_elem? :
    (i : ℕ) (ss : List PollFd) (rs : List Revents) (s : PollFd) (r : Revents)
    → get_elem? ss i ≡ some s
    → get_elem? rs i ≡ some r
    → get_elem? (clean ss rs) i ≡ some (after s (classify r))
unfolding clean
clean-get_elem? i [] rs s r hs hr = ground arith
clean-get_elem? i (s' ∷ ss) [] s r hs hr = ground arith
clean-get_elem? zero (s' ∷ ss) (r' ∷ rs) s r hs hr = grind arith
clean-get_elem? (suc i) (s' ∷ ss) (r' ∷ rs) s r hs hr = clean-get_elem? i ss rs s r hs hr

poll-clean :
    (p : PollImpl) (rs : List Revents)
    → poll p (ready_count p.poll_fd rs) rs
      ≡ record { poll_fd = clean p.poll_fd rs; revents_map = collect p.poll_fd rs [] }
unfolding poll
poll-clean p rs =
    let n = ready_count p.poll_fd rs in
    elim (Bool-cases (ltb 0 n)) [
      | inl e ↦ simp (e, poll_loop-collect n p.poll_fd rs [] (omega arith))
      | inr e ↦
          let none_ready : n ≡ 0 = grind (arith, e) in
          simp (e, clean-none p.poll_fd rs none_ready, collect-none p.poll_fd rs [] none_ready)
    ]

states :
    (r : Revents)
    → classify r ≡ (
        if r.pollin
        then some read
        else if r.pollout
        then some write
        else if r.pollerr
        then some error
        else none)
unfolding classify
states r = ground arith

freed :
    (s : PollFd) (r : Revents)
    → after s (classify r) ≡ (if r.pollerr && not r.pollin && not r.pollout then free_slot else s)
unfolding classify after
freed s r = ground arith

-- Where no descriptor stands in two entries and the kernel returns the number of the entries with an
-- event, the early end of the loop misses nothing. The result map has for a registered descriptor
-- `read` on POLLIN, else `write` on POLLOUT, else `error` on POLLERR, and nothing for it on no event
-- or another one; its entry is freed on a POLLERR without the other two, and else left as it was.
pub poll-lookup :
    (p : PollImpl) (rs : List Revents) (n i : ℕ) (s : PollFd) (r : Revents)
    → IsDistinct p.poll_fd
    → get_elem? p.poll_fd i ≡ some s
    → get_elem? rs i ≡ some r
    → s.fd ≡ some n
    → let q = poll p (ready_count p.poll_fd rs) rs in
      (lookup (some n) q.revents_map ≡ (
        if r.pollin
        then some read
        else if r.pollout
        then some write
        else if r.pollerr
        then some error
        else none))
      × (get_elem? q.poll_fd i
          ≡ some (if r.pollerr && not r.pollin && not r.pollout then free_slot else s))
poll-lookup p rs n i s r d hs hr fd = simp (poll-clean p rs) (
  collect-present n i p.poll_fd rs [] s r d hs hr fd refl ∙ states r,
  clean-get_elem? i p.poll_fd rs s r hs hr ∙ ap some (freed s r),
)
