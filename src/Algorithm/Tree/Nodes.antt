-- ===== src/Algorithm/Tree/Nodes.antt =====
-- The nodes of algorithm/tree.hpp at their addresses, and the commands that read and write them. A
-- pointer is an address or null; a read through a null pointer, or at an address that has been
-- deleted, has no defined behaviour and is a fault.
use cpp_prac.Prelude.{ℕ, Bool, true, false, Option, none, some, ◌==◌, if◌then◌else◌, ◌≡◌, refl}

abbrev pub Ptr : Type 0
Ptr = Option ℕ

-- Whether two pointers are equal.
abbrev pub same : Ptr → Ptr → Bool
same none none = true
same none (some b) = false
same (some a) none = false
same (some a) (some b) = a == b

pub record Node {ℓ} (A : Type ℓ) : Type ℓ where
  pub item : A
  pub parent : Ptr
  pub left : Ptr
  pub right : Ptr

abbrev pub node_of {ℓ} : {A : Type ℓ} → A → Ptr → Ptr → Ptr → Node A
node_of x q l r = record { item = x; parent = q; left = l; right = r }

abbrev pub Heap {ℓ} : Type ℓ → Type ℓ
Heap A = ℕ → Option (Node A)

abbrev pub write {ℓ} : {A : Type ℓ} → Heap A → ℕ → Option (Node A) → Heap A
write h p c a = if a == p then c else h a

pub data Run {ℓ κ} (A : Type ℓ) (B : Type κ) : Type (ℓ ⊔ κ) where
  ok : B → Heap A → Run A B
  fault : Run A B
  out_of_fuel : Run A B

abbrev pub Cmd {ℓ κ} : Type ℓ → Type κ → Type (ℓ ⊔ κ)
Cmd A B = Heap A → Run A B

abbrev pub pure {ℓ κ} : {A : Type ℓ} {B : Type κ} → B → Cmd A B
pure b h = ok b h

module _ {ℓ κ μ} {A : Type ℓ} {B : Type κ} {C : Type μ} where
  abbrev pub and_then : Run A B → (B → Cmd A C) → Run A C
  and_then (ok b h) k = k b h
  and_then fault k = fault
  and_then out_of_fuel k = out_of_fuel

  infixl 5 ◌>>=◌ ◌>>◌
  abbrev pub ◌>>=◌ : Cmd A B → (B → Cmd A C) → Cmd A C
  m >>= k = λ h. and_then (m h) k

  abbrev pub ◌>>◌ : Cmd A B → Cmd A C → Cmd A C
  m >> n = m >>= λ _. n

module _ {ℓ} {A : Type ℓ} where
  -- Fills an address, or gives it back.
  abbrev pub store : ℕ → Option (Node A) → Cmd A (Unit {0})
  store p c h = ok tt (write h p c)

  unfoldable pub load : Ptr → Cmd A (Node A)
  load none h = fault
  load (some a) h = elim (h a) [ none ↦ fault | some n ↦ ok n h ]

  -- A write to a field of the node at a pointer.
  unfoldable pub update : Ptr → (Node A → Node A) → Cmd A (Unit {0})
  update none f h = fault
  update (some a) f h = elim (h a) [ none ↦ fault | some n ↦ ok tt (write h a (some (f n))) ]

  abbrev pub set_parent : Ptr → Ptr → Cmd A (Unit {0})
  set_parent p q = update p (λ n. record n { parent = q })

  abbrev pub set_left : Ptr → Ptr → Cmd A (Unit {0})
  set_left p q = update p (λ n. record n { left = q })

  abbrev pub set_right : Ptr → Ptr → Cmd A (Unit {0})
  set_right p q = update p (λ n. record n { right = q })

  unfoldable pub delete : Ptr → Cmd A (Unit {0})
  delete none h = ok tt h
  delete (some a) h = elim (h a) [ none ↦ fault | some n ↦ ok tt (write h a none) ]

  pub load-ok : (h : Heap A) (a : ℕ) (n : Node A) → h a ≡ some n → load (some a) h ≡ ok n h
  unfolding load
  load-ok h a n e = rw (e, load) refl

  pub update-ok :
      (h : Heap A) (a : ℕ) (n : Node A) (f : Node A → Node A)
      → h a ≡ some n
      → update (some a) f h ≡ ok tt (write h a (some (f n)))
  unfolding update
  update-ok h a n f e = rw (e, update) refl
