-- ===== src/Algorithm/Tree/Removing.antt =====
-- The removal of algorithm/tree.hpp on search trees: the nodes and the items that are left.
use cpp_prac.Prelude.{
  ℕ, suc, ◌+◌, true, false, ◌||◌, none, some, ◌∷◌, ◌++◌, ◌==◌, ◌≡◌, refl, sym, ap, ◌∙◌, arith,
}
use mathlib.Core.List.{append-nil}
use cpp_prac.Prelude.Order.{Order, lt}
use cpp_prac.Algorithm.Tree.Nodes.{Ptr}
use cpp_prac.Algorithm.Tree.Shapes.{
  Shape, leaf, node, has, items, count, or_false, IsApart, reparent, All, All-imp,
}
use cpp_prac.Algorithm.Tree.Removal.{pop_min, promote, moved_up, without_root}
use cpp_prac.Algorithm.Tree.Slots.{has-reparent, reparent-IsDistinct}
use cpp_prac.Algorithm.Tree.Detaching.{has-pop_min, pop_min-IsDistinct}
use cpp_prac.Algorithm.Tree.Pairs.{split_or}
use cpp_prac.Algorithm.Tree.Shrinking.{
  Each, IsShrunk, IsShrunk-trans, moved_up-IsShrunk, child_right-IsShrunk, child_left-IsShrunk,
  All-reparent, All-pop_min, pop_min-IsOrdered, items-reparent, count-reparent, reparent-IsOrdered,
}

module _ {ℓ} {A : Type ℓ} where
  -- `promote` where it succeeds.
  abbrev promoted : Ptr → Shape A → ℕ → A → Shape A → Shape A
  promoted p l m w rest = node (reparent l (some m)) m w p (reparent rest (some m))

  Each-promote {κ} :
      (P : Shape A → Type κ) (p : Ptr) (l : Shape A) (m : ℕ) (w : A) (rest : Shape A)
      → P (promoted p l m w rest)
      → Each P (promote p l m w rest)
  Each-promote P p l m w leaf v = tt
  Each-promote P p l m w (node sl d y u sr) v = v

  items-pop_min :
      (l : Shape A) (a : ℕ) (x : A) (q : Ptr) (r : Shape A)
      → let (_, w, _, _, rest) = pop_min l a x q r in items (node l a x q r) ≡ w ∷ items rest
  unfolding pop_min
  items-pop_min leaf a x q r = ap (λ xs. x ∷ xs) (sym (items-reparent r q))
  items-pop_min (node ll b y s lr) a x q r =
      ap (λ xs. xs ++ x ∷ items r) (items-pop_min ll b y s lr)

  pub count-pop_min :
      (l : Shape A) (a : ℕ) (x : A) (q : Ptr) (r : Shape A)
      → let (_, _, _, _, rest) = pop_min l a x q r in count (node l a x q r) ≡ suc (count rest)
  unfolding pop_min
  count-pop_min leaf a x q r = omega (arith, count-reparent r q)
  count-pop_min (node ll b y s lr) a x q r = omega (arith, count-pop_min ll b y s lr)

  -- What is left in place of a node.
  pub record IsLeft (l r s' : Shape A) : Type ℓ where
    pub items : items s' ≡ items l ++ items r
    pub count : count s' ≡ count l + count r

  moved_up-IsLeft :
      (p : Ptr) (l r s : Shape A)
      → items s ≡ items l ++ items r
      → count s ≡ count l + count r
      → IsLeft l r (moved_up p s)
  moved_up-IsLeft none l r s e e' = record {
    items = items-reparent s none ∙ e;
    count = count-reparent s none ∙ e';
  }
  moved_up-IsLeft (some c) l r s e e' = record { items = e; count = e' }

  pub without_root-IsLeft :
      (l : Shape A) (a : ℕ) (p : Ptr) (r : Shape A) → Each (IsLeft l r) (without_root l a p r)
  unfolding without_root
  without_root-IsLeft leaf a p leaf = record { items = refl; count = refl }
  without_root-IsLeft leaf a p (node rl b y q rr) =
      moved_up-IsLeft p leaf (node rl b y q rr) (node rl b y q rr) refl (omega arith)
  without_root-IsLeft (node ll b y q lr) a p leaf =
      moved_up-IsLeft p (node ll b y q lr) leaf (node ll b y q lr)
        (sym (append-nil (items (node ll b y q lr)))) (omega arith)
  without_root-IsLeft (node ll b y q lr) a p (node rl c z s rr) =
      let l : Shape A = node ll b y q lr in
      let (m, w, _, _, rest) = pop_min rl c z s rr in
      Each-promote (IsLeft l (node rl c z s rr)) p l m w rest (record {
        items =
            ap (λ xs. items l ++ w ∷ xs) (items-reparent rest (some m))
            ∙ ap (λ xs. items l ++ xs) (sym (items-pop_min rl c z s rr));
        count = omega (arith, count-reparent rest (some m), count-pop_min rl c z s rr);
      })

module _ {ℓ} {A : Type ℓ} ⦃o : Order A⦄ where
  moved_All {κ} :
      (P : A → Type κ) (p : Ptr) (l rl : Shape A) (c : ℕ) (z : A) (s : Ptr) (rr : Shape A)
      → All P l
      → All P (node rl c z s rr)
      → let (m, w, _, _, rest) = pop_min rl c z s rr in All P (promoted p l m w rest)
  moved_All P p l rl c z s rr low high =
      let (m, w, _, _, rest) = pop_min rl c z s rr in
      let (here, high') = All-pop_min P rl c z s rr high in
      (All-reparent P l (some m) low, here, All-reparent P rest (some m) high')

  least_apart :
      (l r : Shape A) (m : ℕ) (rest : Shape A)
      → has m r ≡ ((m == m) || has m rest)
      → IsApart l r
      → has m l ≡ false
  least_apart l r m rest e apart = ground (arith, apart m)

  promoted-IsShrunk :
      (p : Ptr) (l : Shape A) (a : ℕ) (x : A) (q : Ptr) (rl : Shape A) (c : ℕ) (z : A) (s : Ptr)
      (rr : Shape A)
      → let (m, w, _, _, rest) = pop_min rl c z s rr in
        IsShrunk (node l a x q (node rl c z s rr)) (promoted p l m w rest)
  promoted-IsShrunk p l a x q rl c z s rr =
      let r : Shape A = node rl c z s rr in
      let (m, w, _, _, rest) = pop_min rl c z s rr in
      let e : (b : ℕ) → has b r ≡ ((b == m) || has b rest) = λ b. has-pop_min rl c z s rr b in
      record {
        ordered = λ (below, over, ol, or).
            let (least, rest_ordered) = pop_min-IsOrdered rl c z s rr or in
            let x_w = (All-pop_min (λ y. lt x y ≡ true) rl c z s rr over).0 in
            (
              All-reparent (λ y. lt y w ≡ true) l (some m)
                  (All-imp (λ y e. o.trans y x w e x_w) l below),
              All-reparent (λ y. lt w y ≡ true) rest (some m) least,
              reparent-IsOrdered l (some m) ol,
              reparent-IsOrdered rest (some m) rest_ordered,
            );
        below = λ b (low, here, high). moved_All (λ y. lt y b ≡ true) p l rl c z s rr low high;
        over = λ b (low, here, high). moved_All (λ y. lt b y ≡ true) p l rl c z s rr low high;
        inside = λ b i.
            let (_, i_l, i_r) = or_false (b == a) (has b l) (has b r) i in
            let (n, i_rest) = split_or (b == m) (has b rest) (has b r) (e b) i_r in
            rw (n, has-reparent b l (some m), has-reparent b rest (some m), i_l, i_rest) refl;
        distinct = λ (al, ar, apart, dl, dr).
            let (out, d_rest) = pop_min-IsDistinct rl c z s rr dr in
            (
              has-reparent m l (some m) ∙ least_apart l r m rest (e m) apart,
              has-reparent m rest (some m) ∙ out,
              (λ b i.
                  has-reparent b rest (some m)
                  ∙ (split_or (b == m) (has b rest) (has b r) (e b)
                      (apart b (sym (has-reparent b l (some m)) ∙ i))).1),
              reparent-IsDistinct l (some m) dl,
              reparent-IsDistinct rest (some m) d_rest,
            );
      }

  pub without_root-IsShrunk :
      (l : Shape A) (a : ℕ) (x : A) (q p : Ptr) (r : Shape A)
      → Each (IsShrunk (node l a x q r)) (without_root l a p r)
  unfolding without_root
  without_root-IsShrunk leaf a x q p leaf = child_left-IsShrunk leaf a x q leaf
  without_root-IsShrunk leaf a x q p (node rl b y s rr) =
      let r : Shape A = node rl b y s rr in
      IsShrunk-trans (node leaf a x q r) r (moved_up p r) (child_right-IsShrunk leaf a x q r)
        (moved_up-IsShrunk r p)
  without_root-IsShrunk (node ll b y s lr) a x q p leaf =
      let l : Shape A = node ll b y s lr in
      IsShrunk-trans (node l a x q leaf) l (moved_up p l) (child_left-IsShrunk l a x q leaf)
        (moved_up-IsShrunk l p)
  without_root-IsShrunk (node ll b y s lr) a x q p (node rl c z u rr) =
      let l : Shape A = node ll b y s lr in
      let (m, w, _, _, rest) = pop_min rl c z u rr in
      Each-promote (IsShrunk (node l a x q (node rl c z u rr))) p l m w rest
        (promoted-IsShrunk p l a x q rl c z u rr)
