-- ===== src/Algorithm/Tree/Pairs.antt =====
-- `del` of algorithm/tree.hpp on a node with two children, from its start to its end.
use cpp_prac.Prelude.{
  ℕ, Bool, true, false, ◌||◌, none, some, ◌==◌, ◌≡◌, ◌≢◌, refl, sym, ap, ◌∙◌, arith,
}
use cpp_prac.Prelude.Order.{Order}
use cpp_prac.Algorithm.Tree.{BinaryTree, leftmost, detach, hand_over, take_place, unlink_both}
use cpp_prac.Algorithm.Tree.Nodes.{Ptr, Node, node_of, Heap, ok, fault, load-ok}
use cpp_prac.Algorithm.Tree.Shapes.{
  Shape, leaf, node, ptr, has, or_false, Holds, IsDistinct, Holds-frame, reparent,
}
use cpp_prac.Algorithm.Tree.Removal.{promote}
use cpp_prac.Algorithm.Tree.Slots.{
  Slot, owner, PointsTo, IsOutside, ptr-reparent, has-reparent, IsOutside-owns, IsOutside-has,
  PointsTo-frame,
}
use cpp_prac.Algorithm.Tree.Unlinking.{Ends, has_ne, has_ne'}
use cpp_prac.Algorithm.Tree.Handing.{IsLoose, hand_over-Holds, hand_over-fault}
use cpp_prac.Algorithm.Tree.Promoting.{take_place-PointsTo}

pub split_or : (b c d : Bool) → d ≡ (b || c) → d ≡ false → (b ≡ false) × (c ≡ false)
split_or b c d e h = ground arith

in_pair : (b c d : Bool) → (c ≡ true → (b || (c || d)) ≡ true) × (d ≡ true → (b || (c || d)) ≡ true)
in_pair b c d = ground arith

eq_sym : (a m : ℕ) → (a == m) ≡ false → (m == a) ≡ false
eq_sym a m h = grind arith

module _ {ℓ} {A : Type ℓ} ⦃o : Order A⦄ where
  -- The right subtree without its least node `m`.
  pub record IsRest (r : Shape A) (m : ℕ) (rest : Shape A) : Type 0 where
    pub addresses : (b : ℕ) → has b r ≡ ((b == m) || has b rest)
    pub out : has m rest ≡ false
    pub distinct : IsDistinct rest

  IsRest-IsLoose :
      (l : Shape A) (a : ℕ) (x : A) (q : Ptr) (r : Shape A) (m : ℕ) (rest : Shape A)
      → IsDistinct (node l a x q r)
      → IsRest r m rest
      → IsLoose a m l rest
  IsRest-IsLoose l a x q r m rest d v =
      let (ne, a_right) = split_or (a == m) (has a rest) (has a r) (v.addresses a) d.1 in
      let i : has m r ≡ true = ground (arith, v.addresses m) in
      record {
        a_left = d.0;
        a_right = a_right;
        m_left = ground (arith, d.2 m);
        m_right = v.out;
        ne = ne;
        apart = λ b i. (split_or (b == m) (has b rest) (has b r) (v.addresses b) (d.2 b i)).1;
        left = d.3;
        right = v.distinct;
      }

  in_rest :
      (b m : ℕ) (r rest : Shape A)
      → has b r ≡ ((b == m) || has b rest)
      → has b rest ≡ true
      → has b r ≡ true
  in_rest b m r rest e i = ground arith

  has_least : (m : ℕ) (r rest : Shape A) → has m r ≡ ((m == m) || has m rest) → has m r ≡ true
  has_least m r rest e = ground arith

  in_root : (a : ℕ) (l : Shape A) (x : A) (q : Ptr) (r : Shape A) → has a (node l a x q r) ≡ true
  in_root a l x q r = ground arith

  -- The first half of the work: the least node stands alone, and the node to remove has the rest at its right.
  pub record IsCut (l : Shape A) (a : ℕ) (x : A) (q : Ptr) (r : Shape A) (m : ℕ) (w : A)
      (rest : Shape A) (h g : Heap A) : Type ℓ where
    pub holds : Holds g rest
    pub here : g a ≡ some (node_of x q (ptr l) (ptr rest))
    pub parent : Ptr
    pub moved : Ptr
    pub target : g m ≡ some (node_of w parent none moved)
    pub same : (b : ℕ) → has b r ≡ false → (b == a) ≡ false → g b ≡ h b

  both_run :
      (k : ℕ) (tree tree' : BinaryTree) (h g g' g'' : Heap A) (a m : ℕ) (n n' : Node A)
      → h a ≡ some n
      → leftmost k n.right h ≡ ok (some m) h
      → detach (some m) h ≡ ok tt g
      → hand_over (some a) (some m) g ≡ ok tt g'
      → g' a ≡ some n'
      → take_place tree (some a) (some m) n'.parent g' ≡ ok tree' g''
      → unlink_both k tree (some a) h ≡ ok tree' g''
  unfolding unlink_both
  both_run k tree tree' h g g' g'' a m n n' here low cut hand here' place =
      rw (load-ok h a n here, low, cut, hand, load-ok g' a n' here') place

  both_fault :
      (k : ℕ) (tree : BinaryTree) (h g : Heap A) (a m : ℕ) (n : Node A)
      → h a ≡ some n
      → leftmost k n.right h ≡ ok (some m) h
      → detach (some m) h ≡ ok tt g
      → hand_over (some a) (some m) g ≡ fault
      → unlink_both k tree (some a) h ≡ fault
  unfolding unlink_both
  both_fault k tree h g a m n here low cut hand = rw (load-ok h a n here, low, cut, hand) refl

  pub both_rest :
      (k : ℕ) (slot : Slot A) (l : Shape A) (a : ℕ) (x : A) (q : Ptr) (r : Shape A) (m : ℕ) (w : A)
      (rest : Shape A) (tree : BinaryTree) (h g : Heap A)
      → q ≡ owner slot
      → Holds h (node l a x q r)
      → IsDistinct (node l a x q r)
      → ptr l ≢ none
      → leftmost k (ptr r) h ≡ ok (some m) h
      → detach (some m) h ≡ ok tt g
      → IsCut l a x q r m w rest h g
      → IsRest r m rest
      → PointsTo slot tree h (some a)
      → IsOutside slot (node l a x q r)
      → Ends slot
          (node l a x q r)
          tree
          h
          (promote (owner slot) l m w rest)
          (unlink_both k tree (some a) h)
  both_rest k slot l a x q r m w leaf tree h g e hs d ne low cut c v at out =
      let loose = IsRest-IsLoose l a x q r m leaf d v in
      let hl : Holds g l =
        Holds-frame g h l (λ b i. c.same b (d.2 b i) (has_ne l a b i d.0)) hs.1 in
      both_fault k tree h g a m (node_of x q (ptr l) (ptr r)) hs.0 low cut
        (hand_over-fault g a m l x w q c.parent c.moved loose ne hl c.here c.target)
  both_rest k slot l a x q r m w (node sl s y z sr) tree h g e hs d ne low cut c v at out =
      let rest : Shape A = node sl s y z sr in
      let t : Shape A = node l a x q r in
      let loose = IsRest-IsLoose l a x q r m rest d v in
      let hl : Holds g l =
        Holds-frame g h l (λ b i. c.same b (d.2 b i) (has_ne l a b i d.0)) hs.1 in
      let (g', hand, hl', hr', here', target', same') =
        hand_over-Holds g a m l rest x w q c.parent c.moved loose ne (λ e. ground arith) hl c.holds
          c.here c.target in
      let kept : (b : ℕ) → has b t ≡ false → g' b ≡ h b = λ b i.
        let (n, i_l, i_r) = or_false (b == a) (has b l) (has b r) i in
        let (n', i_rest) = split_or (b == m) (has b rest) (has b r) (v.addresses b) i_r in
        same' b i_l i_rest n' ∙ c.same b i_r n in
      let in_r : (b : ℕ) → has b rest ≡ true → has b r ≡ true =
        λ b i. in_rest b m r rest (v.addresses b) i in
      let i_a : has a t ≡ true = in_root a l x q r in
      let i_m : has m t ≡ true =
        (in_pair (m == a) (has m l) (has m r)).1 (has_least m r rest (v.addresses m)) in
      let at' : PointsTo slot tree g' (some a) =
        PointsTo-frame slot tree h g' (some a) (λ b own. kept b (IsOutside-has slot t b out own))
          at in
      let (tree', g'', place, at'', size, keep, target'', same'') =
        take_place-PointsTo slot t a m w c.parent (ptr l) (ptr rest)
          (node_of x q (ptr l) (ptr rest)) tree g' here' target' i_a i_m loose.ne
          (eq_sym a m loose.ne) at' out in
      (
        tree',
        g'',
        both_run k tree tree' h g g' g'' a m (node_of x q (ptr l) (ptr r))
            (node_of x q (ptr l) (ptr rest)) hs.0 low cut hand here'
            (ap (λ u. take_place tree (some a) (some m) u g') e ∙ place),
        (
          target''
              ∙ ap (λ u. some (node_of w (owner slot) u (some s))) (sym (ptr-reparent l (some m))),
          Holds-frame g'' g' (reparent l (some m))
              (λ b i.
                let j : has b l ≡ true = sym (has-reparent b l (some m)) ∙ i in
                same'' b (IsOutside-owns slot t b out ((in_pair (b == a) (has b l) (has b r)).0 j))
                  (has_ne l m b j loose.m_left) (has_ne l a b j loose.a_left))
              hl',
          Holds-frame g'' g' (reparent rest (some m))
              (λ b j.
                same'' b
                  (IsOutside-owns slot t b out
                    ((in_pair (b == a) (has b l) (has b r)).1 (in_r b j)))
                  (has_ne rest m b j v.out) (has_ne rest a b j loose.a_right))
              hr',
        ),
        at'',
        size,
        keep,
        λ b i own. same'' b own (has_ne' t m b i_m i) (has_ne' t a b i_a i) ∙ kept b i,
      )
