-- ===== src/Network/Poller.antt =====
-- network/poller.hpp and network/poller.cpp: `PollImpl`. The 1024 entries of `m_poll_fd` are a list,
-- and a free entry has no descriptor. The result map is a list in the order of its keys. What the
-- kernel's `poll` answers, its result and the `revents` of each entry, is an argument.
mod Examples
pub mod Slots
pub mod Results
use cpp_prac.Prelude.{
  ℕ, zero, suc, ◌-◌, ◌==◌, Bool, true, false, Option, none, some, List, [], ◌∷◌, if◌then◌else◌, ltb,
  replicate,
}

-- `events` is set or 0.
pub record PollFd : Type 0 where
  pub fd : Option ℕ
  pub events : Bool

-- `hangup` is POLLHUP or POLLNVAL: the kernel counts them, and the loop tests neither.
pub record Revents : Type 0 where
  pub pollin : Bool
  pub pollout : Bool
  pub pollerr : Bool
  pub hangup : Bool

pub data IoState : Type 0 where
  read write error : IoState

-- The order of the keys: -1 is below every descriptor.
abbrev pub key : Option ℕ → ℕ
key none = 0
key (some n) = suc n

abbrev pub ReventsMap : Type 0
ReventsMap = List (Option ℕ × IoState)

unfoldable pub insert : Option ℕ → IoState → ReventsMap → ReventsMap
insert k v [] = (k, v) ∷ []
insert k v ((k', v') ∷ m) =
    if key k == key k'
    then (k', v) ∷ m
    else if ltb (key k) (key k')
    then (k, v) ∷ (k', v') ∷ m
    else (k', v') ∷ insert k v m

pub record PollImpl : Type 0 where
  pub poll_fd : List PollFd
  pub revents_map : ReventsMap

abbrev pub poll_max : ℕ
poll_max = 1024

abbrev pub free_slot : PollFd
free_slot = record { fd = none; events = false }

unfoldable pub new_poll : PollImpl
new_poll = record { poll_fd = replicate poll_max free_slot; revents_map = [] }

-- The state that an entry of the result map gets, in the order of the tests.
unfoldable pub classify : Revents → Option IoState
classify r =
    if r.pollin
    then some read
    else if r.pollout
    then some write
    else if r.pollerr
    then some error
    else none

-- The entry after the turn: it is freed on an error.
unfoldable pub after : PollFd → Option IoState → PollFd
after s (some read) = s
after s (some write) = s
after s (some error) = free_slot
after s none = s

unfoldable pub record_state : Option ℕ → Option IoState → ReventsMap → ReventsMap
record_state k none m = m
record_state k (some v) m = insert k v m

unfoldable pub count_down : Option IoState → ℕ → ℕ
count_down none nready = nready
count_down (some _) nready = nready - 1

-- The loop over the entries, which ends early when `nready` is 0.
unfoldable pub poll_loop : ℕ → List PollFd → List Revents → ReventsMap → List PollFd × ReventsMap
unfolding after record_state count_down
poll_loop nready (s ∷ ss) (r ∷ rs) m =
    let c = classify r in
    let m' = record_state s.fd c m in
    let n = count_down c nready in
    let (rest, found) = poll_loop n ss rs m' in
    if n == 0 then (after s c ∷ ss, m') else (after s c ∷ rest, found)
poll_loop nready ss rs m = (ss, m)

unfoldable pub poll : PollImpl → ℕ → List Revents → PollImpl
unfolding poll_loop
poll p nready rs =
    let (ss, m) = poll_loop nready p.poll_fd rs [] in
    if ltb 0 nready then record { poll_fd = ss; revents_map = m } else record p { revents_map = [] }

abbrev pub is_free : PollFd → Bool
is_free s = elim s.fd [ none ↦ true | some _ ↦ false ]

unfoldable pub register : Option ℕ → List PollFd → List PollFd
register fd [] = []
register fd (s ∷ ss) =
    if is_free s then record { fd = fd; events = true } ∷ ss else s ∷ register fd ss

unfoldable pub register_socket : PollImpl → Option ℕ → PollImpl
unfolding register
register_socket p fd = record p { poll_fd = register fd p.poll_fd }

unfoldable pub unregister : Option ℕ → List PollFd → List PollFd
unregister fd [] = []
unregister fd (s ∷ ss) = if key s.fd == key fd then free_slot ∷ ss else s ∷ unregister fd ss

unfoldable pub unregister_socket : PollImpl → Option ℕ → PollImpl
unfolding unregister
unregister_socket p fd = record p { poll_fd = unregister fd p.poll_fd }
