-- ===== src/Algorithm/Tree/Shrinking.antt =====
-- What the removal of algorithm/tree.hpp keeps of a search tree.
use cpp_prac.Prelude.{ℕ, true, false, Option, none, some, ◌==◌, ◌≡◌, refl, ◌∙◌, arith}
use mathlib.Core.Option
use cpp_prac.Prelude.Order.{Order, lt}
use cpp_prac.Algorithm.Tree.Nodes.{Ptr}
use cpp_prac.Algorithm.Tree.Shapes.{
  Shape, leaf, node, has, items, count, or_false, IsApart, IsDistinct, reparent, All, All-imp,
  IsBelow, IsOver, IsOrdered,
}
use cpp_prac.Algorithm.Tree.Removal.{pop_min, moved_up}
use cpp_prac.Algorithm.Tree.Slots.{has-reparent, reparent-IsDistinct}

-- A predicate of the result, where there is one.
abbrev pub Each {ℓ κ} : {A : Type ℓ} → (A → Type κ) → Option A → Type κ
Each P none = Unit
Each P (some s) = P s

pub Each-map {ℓ κ μ} :
    {A : Type ℓ} (P : A → Type κ) (Q : A → Type μ) (f : A → A)
    → ((s : A) → P s → Q (f s))
    → (r : Option A) → Each P r
    → Each Q (Option.map f r)
Each-map P Q f imp none e = tt
Each-map P Q f imp (some s) e = imp s e

pub Each-both {ℓ κ μ ν} :
    {A : Type ℓ} (P : A → Type κ) (Q : A → Type μ) (R : A → Type ν)
    → ((a : A) → P a → Q a → R a)
    → (r : Option A) → Each P r
    → Each Q r
    → Each R r
Each-both P Q R f none u v = tt
Each-both P Q R f (some a) u v = f a u v

module _ {ℓ} {A : Type ℓ} where
  pub All-reparent {κ} : (P : A → Type κ) (s : Shape A) (p : Ptr) → All P s → All P (reparent s p)
  All-reparent P leaf p v = v
  All-reparent P (node l a x q r) p v = v

  pub items-reparent : (s : Shape A) (p : Ptr) → items (reparent s p) ≡ items s
  items-reparent leaf p = refl
  items-reparent (node l a x q r) p = refl

  pub count-reparent : (s : Shape A) (p : Ptr) → count (reparent s p) ≡ count s
  count-reparent leaf p = refl
  count-reparent (node l a x q r) p = refl

  pub All-pop_min {κ} :
      (P : A → Type κ) (l : Shape A) (a : ℕ) (x : A) (q : Ptr) (r : Shape A)
      → All P (node l a x q r)
      → let (_, w, _, _, rest) = pop_min l a x q r in P w × All P rest
  unfolding pop_min
  All-pop_min P leaf a x q r (low, here, high) = (here, All-reparent P r q high)
  All-pop_min P (node ll b y s lr) a x q r (low, here, high) =
      let (w, rest) = All-pop_min P ll b y s lr low in (w, (rest, here, high))

module _ {ℓ} {A : Type ℓ} ⦃o : Order A⦄ where
  pub reparent-IsOrdered : (s : Shape A) (p : Ptr) → IsOrdered s → IsOrdered (reparent s p)
  reparent-IsOrdered leaf p v = v
  reparent-IsOrdered (node l a x q r) p v = v

  pub pop_min-IsOrdered :
      (l : Shape A) (a : ℕ) (x : A) (q : Ptr) (r : Shape A)
      → IsOrdered (node l a x q r)
      → let (_, w, _, _, rest) = pop_min l a x q r in IsOver w rest × IsOrdered rest
  unfolding pop_min
  pop_min-IsOrdered leaf a x q r (below, over, ol, or) =
      (All-reparent (λ y. lt x y ≡ true) r q over, reparent-IsOrdered r q or)
  pop_min-IsOrdered (node ll b y s lr) a x q r (below, over, ol, or) =
      let (least, ordered) = pop_min-IsOrdered ll b y s lr ol in
      let (low, low_rest) = All-pop_min (λ y. lt y x ≡ true) ll b y s lr below in
      let w = (pop_min ll b y s lr).1 in
      ((least, low, All-imp (λ z e. o.trans w x z low e) r over), (low_rest, over, ordered, or))

  -- `s'` keeps the invariants of `s`, and has no address and no item that `s` has not.
  pub record IsShrunk (s s' : Shape A) : Type ℓ where
    pub ordered : IsOrdered s → IsOrdered s'
    pub below : (b : A) → IsBelow b s → IsBelow b s'
    pub over : (b : A) → IsOver b s → IsOver b s'
    pub inside : (b : ℕ) → has b s ≡ false → has b s' ≡ false
    pub distinct : IsDistinct s → IsDistinct s'

  pub right-IsShrunk :
      (l : Shape A) (a : ℕ) (x : A) (q : Ptr) (r r' : Shape A)
      → IsShrunk r r'
      → IsShrunk (node l a x q r) (node l a x q r')
  right-IsShrunk l a x q r r' v = record {
    ordered = λ (below, over, ol, or). (below, v.over x over, ol, v.ordered or);
    below = λ b (low, here, high). (low, here, v.below b high);
    over = λ b (low, here, high). (low, here, v.over b high);
    inside = λ b i.
        let (n, i_l, i_r) = or_false (b == a) (has b l) (has b r) i in
        rw (n, i_l, v.inside b i_r) refl;
    distinct = λ (al, ar, apart, dl, dr).
        (al, v.inside a ar, (λ b i. v.inside b (apart b i)), dl, v.distinct dr);
  }

  pub IsApart-left :
      (l l' r : Shape A)
      → ((b : ℕ) → has b l ≡ false → has b l' ≡ false)
      → IsApart l r
      → IsApart l' r
  IsApart-left l l' r inside apart b i = ground (arith, inside b, apart b)

  pub left-IsShrunk :
      (l l' : Shape A) (a : ℕ) (x : A) (q : Ptr) (r : Shape A)
      → IsShrunk l l'
      → IsShrunk (node l a x q r) (node l' a x q r)
  left-IsShrunk l l' a x q r v = record {
    ordered = λ (below, over, ol, or). (v.below x below, over, v.ordered ol, or);
    below = λ b (low, here, high). (v.below b low, here, high);
    over = λ b (low, here, high). (v.over b low, here, high);
    inside = λ b i.
        let (n, i_l, i_r) = or_false (b == a) (has b l) (has b r) i in
        rw (n, v.inside b i_l, i_r) refl;
    distinct = λ (al, ar, apart, dl, dr).
        (v.inside a al, ar, IsApart-left l l' r v.inside apart, v.distinct dl, dr);
  }

  reparent-IsShrunk : (s : Shape A) (p : Ptr) → IsShrunk s (reparent s p)
  reparent-IsShrunk s p = record {
    ordered = reparent-IsOrdered s p;
    below = λ b. All-reparent (λ x. lt x b ≡ true) s p;
    over = λ b. All-reparent (λ x. lt b x ≡ true) s p;
    inside = λ b i. has-reparent b s p ∙ i;
    distinct = reparent-IsDistinct s p;
  }

  pub IsShrunk-refl : (s : Shape A) → IsShrunk s s
  IsShrunk-refl s = record {
    ordered = λ v. v;
    below = λ b v. v;
    over = λ b v. v;
    inside = λ b i. i;
    distinct = λ v. v;
  }

  pub moved_up-IsShrunk : (s : Shape A) (p : Ptr) → IsShrunk s (moved_up p s)
  moved_up-IsShrunk s none = reparent-IsShrunk s none
  moved_up-IsShrunk s (some c) = IsShrunk-refl s

  pub IsShrunk-trans : (s t u : Shape A) → IsShrunk s t → IsShrunk t u → IsShrunk s u
  IsShrunk-trans s t u v w = record {
    ordered = λ i. w.ordered (v.ordered i);
    below = λ b i. w.below b (v.below b i);
    over = λ b i. w.over b (v.over b i);
    inside = λ b i. w.inside b (v.inside b i);
    distinct = λ i. w.distinct (v.distinct i);
  }

  pub child_right-IsShrunk :
      (l : Shape A) (a : ℕ) (x : A) (q : Ptr) (r : Shape A) → IsShrunk (node l a x q r) r
  child_right-IsShrunk l a x q r = record {
    ordered = λ v. v.3;
    below = λ b v. v.2;
    over = λ b v. v.2;
    inside = λ b i. (or_false (b == a) (has b l) (has b r) i).2;
    distinct = λ d. d.4;
  }

  pub child_left-IsShrunk :
      (l : Shape A) (a : ℕ) (x : A) (q : Ptr) (r : Shape A) → IsShrunk (node l a x q r) l
  child_left-IsShrunk l a x q r = record {
    ordered = λ v. v.2;
    below = λ b v. v.0;
    over = λ b v. v.0;
    inside = λ b i. (or_false (b == a) (has b l) (has b r) i).1;
    distinct = λ d. d.3;
  }
