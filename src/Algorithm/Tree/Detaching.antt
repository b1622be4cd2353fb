-- ===== src/Algorithm/Tree/Detaching.antt =====
-- How `del` of algorithm/tree.hpp finds the least node of a subtree and takes it out of its place.
use cpp_prac.Prelude.{
  ℕ, zero, suc, ◌≤◌, true, false, ◌||◌, none, some, ◌==◌, ◌≡◌, refl, ap, ◌∙◌, arith,
}
use cpp_prac.Prelude.Order.{Order}
use cpp_prac.Algorithm.Tree.{BinaryTree, leftmost, detach, replace_other}
use cpp_prac.Algorithm.Tree.Nodes.{Ptr, node_of, Heap, ok, set_parent, load-ok}
use cpp_prac.Algorithm.Tree.Shapes.{
  Shape, leaf, node, ptr, has, height, max-bounds, or_false, Holds, IsDistinct, HasParents,
  Holds-frame,
}
use cpp_prac.Algorithm.Tree.Removal.{pop_min}
use cpp_prac.Algorithm.Tree.Slots.{
  Slot, left_slot, owner, owns, PointsTo, IsOutside, replace_other-PointsTo, set_parent-reparent,
  has-reparent, reparent-IsDistinct, IsOutside-owns, IsOutside-has, PointsTo-frame,
}

module _ {ℓ} {A : Type ℓ} ⦃o : Order A⦄ where
  -- The addresses without the least node.
  pub has-pop_min :
      (l : Shape A) (a : ℕ) (x : A) (q : Ptr) (r : Shape A) (b : ℕ)
      → let (m, _, _, _, rest) = pop_min l a x q r in
        has b (node l a x q r) ≡ ((b == m) || has b rest)
  unfolding pop_min
  has-pop_min leaf a x q r b = ground (arith, has-reparent b r q)
  has-pop_min (node ll c y p lr) a x q r b = ground (arith, has-pop_min ll c y p lr b)

  pub pop_min-IsDistinct :
      (l : Shape A) (a : ℕ) (x : A) (q : Ptr) (r : Shape A)
      → IsDistinct (node l a x q r)
      → let (m, _, _, _, rest) = pop_min l a x q r in (has m rest ≡ false) × IsDistinct rest
  unfolding pop_min
  pop_min-IsDistinct leaf a x q r d = (has-reparent a r q ∙ d.1, reparent-IsDistinct r q d.4)
  pop_min-IsDistinct (node ll c y p lr) a x q r (out_l, out_r, apart, dl, dr) =
      let (out, d) = pop_min-IsDistinct ll c y p lr dl in
      let m = (pop_min ll c y p lr).0 in
      let rest = (pop_min ll c y p lr).4 in
      let m_has : has m (node ll c y p lr) ≡ true = ground (arith, has-pop_min ll c y p lr m) in
      (
        ground (arith, apart m m_has),
        (
          ground (arith, has-pop_min ll c y p lr a),
          out_r,
          (λ b i. apart b (ground (arith, has-pop_min ll c y p lr b))),
          d,
          dr,
        ),
      )

  pub leftmost-pop_min :
      (k : ℕ) (h : Heap A) (l : Shape A) (a : ℕ) (x : A) (q : Ptr) (r : Shape A)
      → height (node l a x q r) ≤ k
      → Holds h (node l a x q r)
      → leftmost k (some a) h ≡ ok (some (pop_min l a x q r).0) h
  unfolding leftmost pop_min
  leftmost-pop_min zero h l a x q r high m = absurd (ground arith)
  leftmost-pop_min (suc k) h leaf a x q r high m =
      rw (load-ok h a (node_of x q none (ptr r)) m.0) refl
  leftmost-pop_min (suc k) h (node ll c y p lr) a x q r high m =
      let (low_l, _) = max-bounds (height (node ll c y p lr)) (height r) k high in
      rw (load-ok h a (node_of x q (some c) (ptr r)) m.0)
        (leftmost-pop_min k h ll c y p lr low_l m.1)

  -- `detach` on the least node of a subtree in a slot.
  abbrev pub Detaches : Slot A → Shape A → ℕ → A → Ptr → Shape A → BinaryTree → Heap A → Type ℓ
  Detaches slot l a x q r tree h =
      let (m, y, s, moved, rest) = pop_min l a x q r in
      (g : Heap A) × (detach (some m) h ≡ ok tt g)
      × Holds g rest
      × PointsTo slot tree g (ptr rest)
      × (g m ≡ some (node_of y s none (ptr moved)))
      × ((b : ℕ) → has b (node l a x q r) ≡ false → owns b slot ≡ false → g b ≡ h b)

  detach-none :
      (h : Heap A) (a : ℕ) (x : A) (q : Ptr)
      → h a ≡ some (node_of x q none none)
      → detach (some a) h ≡ replace_other q (some a) none h
  unfolding detach
  detach-none h a x q here = rw (load-ok h a (node_of x q none none) here) refl

  detach-some :
      (h g : Heap A) (a c : ℕ) (x : A) (q : Ptr) (g' : Heap A)
      → h a ≡ some (node_of x q none (some c))
      → replace_other q (some a) (some c) h ≡ ok tt g
      → set_parent (some c) q g ≡ ok tt g'
      → detach (some a) h ≡ ok tt g'
  unfolding detach
  detach-some h g a c x q g' here run run' =
      rw (load-ok h a (node_of x q none (some c)) here, run) run'

  -- Where the least node is the root of the subtree.
  detach_root :
      (slot : Slot A) (a : ℕ) (x : A) (q : Ptr) (r : Shape A) (tree : BinaryTree) (h : Heap A)
      (p : ℕ)
      → owner slot ≡ some p
      → q ≡ owner slot
      → Holds h (node leaf a x q r)
      → IsDistinct (node leaf a x q r)
      → PointsTo slot tree h (some a)
      → IsOutside slot (node leaf a x q r)
      → Detaches slot leaf a x q r tree h
  unfolding pop_min
  detach_root slot a x q leaf tree h p e eq m d at out =
      let (g, run, at', same) =
        replace_other-PointsTo slot tree h (node leaf a x q leaf) a p none e at out
          (ground arith) in
      (
        g,
        detach-none h a x q m.0 ∙ ap (λ u. replace_other u (some a) none h) eq ∙ run,
        tt,
        at',
        same a (IsOutside-owns slot (node leaf a x q leaf) a out (ground arith)) ∙ m.0,
        λ b i n. same b n,
      )
  detach_root slot a x q (node rl c y s rr) tree h p e eq m d at out =
      let r : Shape A = node rl c y s rr in
      let t : Shape A = node leaf a x q r in
      let (g, run, at', same) =
        replace_other-PointsTo slot tree h t a p (some c) e at out (ground arith) in
      let mg : Holds g r =
        Holds-frame g h r (λ b i. same b (IsOutside-owns slot t b out (ground arith))) m.2 in
      let (g', run', m', same') = set_parent-reparent g r q (λ e. ground arith) mg d.4 in
      (
        g',
        detach-some h g a c x q g' m.0 (ap (λ u. replace_other u (some a) (some c) h) eq ∙ run)
            run',
        m',
        PointsTo-frame slot tree g g' (some c)
            (λ b i. same' b (ground (arith, IsOutside-has slot t b out i))) at',
        same' a d.1 ∙ same a (IsOutside-owns slot t a out (ground arith)) ∙ m.0,
        λ b i n. same' b (ground arith) ∙ same b n,
      )

  -- What a change of the left subtree and of the link to it leaves alone.
  pub left_frame :
      (slot : Slot A) (l : Shape A) (a : ℕ) (x : A) (q : Ptr) (r : Shape A) (h g : Heap A)
      → IsDistinct (node l a x q r)
      → IsOutside slot (node l a x q r)
      → ((b : ℕ) → has b l ≡ false → (b == a) ≡ false → g b ≡ h b)
      → Holds h r
      → Holds g r
        × ((b : ℕ) → owns b slot ≡ true → g b ≡ h b)
        × ((b : ℕ) → has b (node l a x q r) ≡ false → owns b slot ≡ false → g b ≡ h b)
  left_frame slot l a x q r h g d out same m = (
    Holds-frame g h r (λ b i. same b (ground (arith, d.2 b)) (ground arith)) m,
    (λ b i.
        let (n, n', _) =
          or_false (b == a) (has b l) (has b r) (IsOutside-has slot (node l a x q r) b out i) in
        same b n' n),
    (λ b i _. let (n, n', _) = or_false (b == a) (has b l) (has b r) i in same b n' n),
  )

  -- `detach` takes the least node of a subtree out of it: the heap then has the rest of the subtree,
  -- and the node with its fields as they were.
  pub detach-pop_min :
      (slot : Slot A) (l : Shape A) (a : ℕ) (x : A) (q : Ptr) (r : Shape A) (tree : BinaryTree)
      (h : Heap A) (p : ℕ)
      → owner slot ≡ some p
      → HasParents (owner slot) (node l a x q r)
      → Holds h (node l a x q r)
      → IsDistinct (node l a x q r)
      → PointsTo slot tree h (some a)
      → IsOutside slot (node l a x q r)
      → Detaches slot l a x q r tree h
  unfolding pop_min
  detach-pop_min slot leaf a x q r tree h p e par m d at out =
      detach_root slot a x q r tree h p e par.0 m d at out
  detach-pop_min slot (node ll c y s lr) a x q r tree h p e par m d at out =
      let (g, run, mg, at', gm, same) =
        detach-pop_min (left_slot a x q (ptr r)) ll c y s lr tree h a refl par.1 m.1 d.3 m.0 d.0 in
      let (mr, same_owner, same_else) =
        left_frame slot (node ll c y s lr) a x q r h g d out same m.2 in
      (g, run, (at', mg, mr), PointsTo-frame slot tree h g (some a) same_owner at, gm, same_else)
