-- ===== src/Algorithm/Tree/Unlinking.antt =====
-- How `del` of algorithm/tree.hpp takes out a node with at most one child.
use cpp_prac.Prelude.{ℕ, true, false, Option, none, some, ◌==◌, ◌≡◌, ◌≢◌, refl, sym, ap, ◌∙◌, arith}
use cpp_prac.Prelude.Order.{Order}
use cpp_prac.Algorithm.Tree.{
  BinaryTree, replace_child, unlink_leaf, unlink_single, unlink_both, unlink,
}
use cpp_prac.Algorithm.Tree.Nodes.{
  Ptr, Node, node_of, Heap, write, Run, ok, fault, ◌>>◌, pure, set_parent, delete, load-ok,
}
use cpp_prac.Algorithm.Tree.Shapes.{
  reparent, Shape, leaf, node, ptr, has, Holds, IsDistinct, Holds-frame, Holds-write,
}
use cpp_prac.Algorithm.Tree.Removal.{moved_up}
use cpp_prac.Algorithm.Tree.Slots.{
  Slot, root_slot, left_slot, right_slot, owner, owns, PointsTo, IsOutside, replace_child-PointsTo,
  set_parent-reparent, IsOutside-owns, owns_ne, PointsTo-frame, ptr-reparent, has-reparent,
}

module _ {ℓ} {A : Type ℓ} ⦃o : Order A⦄ where
  -- How a removal from the subtree `s` in a slot ends, where `result` is to be in its place.
  abbrev pub Ends :
      Slot A → Shape A → BinaryTree → Heap A → Option (Shape A) → Run A BinaryTree → Type ℓ
  Ends slot s tree h none run = run ≡ fault
  Ends slot s tree h (some s') run =
      (tree' : BinaryTree) × (g : Heap A) × (run ≡ ok tree' g)
      × Holds g s'
      × PointsTo slot tree' g (ptr s')
      × (tree'.size ≡ tree.size)
      × (owner slot ≢ none → tree' ≡ tree)
      × ((b : ℕ) → has b s ≡ false → owns b slot ≡ false → g b ≡ h b)

  pub delete-ok :
      (h : Heap A) (a : ℕ) (n : Node A) → h a ≡ some n → delete (some a) h ≡ ok tt (write h a none)
  unfolding delete
  delete-ok h a n here = rw (here, delete) refl

  -- The child of a node takes its place in a slot of another node.
  abbrev Replaces : Slot A → ℕ → ℕ → Ptr → BinaryTree → Heap A → Type ℓ
  Replaces slot p a new tree h =
      (g : Heap A) × ((replace_child (some p) (some a) new >> (delete (some a) >> pure tree)) h
        ≡ ok tree g)
      × PointsTo slot tree g new
      × ((b : ℕ) → (b == a) ≡ false → owns b slot ≡ false → g b ≡ h b)

  replaces :
      (slot : Slot A) (s : Shape A) (a p : ℕ) (new : Ptr) (n : Node A) (tree : BinaryTree)
      (h : Heap A)
      → owner slot ≡ some p
      → h a ≡ some n
      → has a s ≡ true
      → PointsTo slot tree h (some a)
      → IsOutside slot s
      → Replaces slot p a new tree h
  replaces slot s a p new n tree h e here i at out =
      let (g, run, at', same) = replace_child-PointsTo slot tree h s a p new e at out i in
      let here' : g a ≡ some n = same a (IsOutside-owns slot s a out i) ∙ here in
      (
        write g a none,
        rw (sym e) (rw (run, delete-ok g a n here') refl),
        PointsTo-frame slot tree g (write g a none) new
            (λ b own. ground (arith, owns_ne slot a b own (IsOutside-owns slot s a out i))) at',
        λ b n own. ground (arith, same b own),
      )

  pub has_ne : (s : Shape A) (a b : ℕ) → has b s ≡ true → has a s ≡ false → (b == a) ≡ false
  has_ne s a b i o = grind arith

  pub has_ne' : (s : Shape A) (a b : ℕ) → has a s ≡ true → has b s ≡ false → (b == a) ≡ false
  has_ne' s a b i o = grind arith

  pub outside :
      (s t : Shape A) (b : ℕ)
      → (has b t ≡ true → has b s ≡ true)
      → has b s ≡ false
      → has b t ≡ false
  outside s t b inside o = ground arith

  pub write-other :
      (h : Heap A) (a b : ℕ) (c : Option (Node A)) → (b == a) ≡ false → write h a c b ≡ h b
  write-other h a b c n = rw n refl

  -- A subtree of the one in the slot that misses the removed node takes its place.
  child_Ends :
      (slot : Slot A) (s s' : Shape A) (a p : ℕ) (n : Node A) (tree : BinaryTree) (h : Heap A)
      → owner slot ≡ some p
      → h a ≡ some n
      → has a s ≡ true
      → PointsTo slot tree h (some a)
      → IsOutside slot s
      → ((b : ℕ) → has b s' ≡ true → has b s ≡ true)
      → has a s' ≡ false
      → Holds h s'
      → Ends slot s tree h
          (some s')
          ((replace_child (some p) (some a) (ptr s') >> (delete (some a) >> pure tree)) h)
  child_Ends slot s s' a p n tree h e here i at out inside miss m =
      let (g, run, at', same) = replaces slot s a p (ptr s') n tree h e here i at out in
      (
        tree,
        g,
        run,
        Holds-frame g h s'
            (λ b j. same b (has_ne s' a b j miss) (IsOutside-owns slot s b out (inside b j))) m,
        at',
        refl,
        (λ _. refl),
        λ b o. same b (has_ne' s a b i o),
      )

  module _ (k : ℕ) (tree : BinaryTree) (h : Heap A) (a : ℕ) (x : A) (q : Ptr) where
    pub unlink-none :
        h a ≡ some (node_of x q none none)
        → unlink k tree (some a) h ≡ unlink_leaf tree (some a) q h
    unfolding unlink
    unlink-none here = rw (load-ok h a (node_of x q none none) here) refl

    pub unlink_right :
        (c : ℕ)
        → h a ≡ some (node_of x q none (some c))
        → unlink k tree (some a) h ≡ unlink_single (λ m. m.right) tree (some a) q h
    unfolding unlink
    unlink_right c here = rw (load-ok h a (node_of x q none (some c)) here) refl

    pub unlink_left :
        (c : ℕ)
        → h a ≡ some (node_of x q (some c) none)
        → unlink k tree (some a) h ≡ unlink_single (λ m. m.left) tree (some a) q h
    unfolding unlink
    unlink_left c here = rw (load-ok h a (node_of x q (some c) none) here) refl

    pub unlink_two :
        (b c : ℕ)
        → h a ≡ some (node_of x q (some b) (some c))
        → unlink k tree (some a) h ≡ unlink_both k tree (some a) h
    unfolding unlink
    unlink_two b c here = rw (load-ok h a (node_of x q (some b) (some c)) here) refl

  pub leaf_Ends :
      (slot : Slot A) (a : ℕ) (x : A) (q : Ptr) (tree : BinaryTree) (h : Heap A)
      → q ≡ owner slot
      → h a ≡ some (node_of x q none none)
      → PointsTo slot tree h (some a)
      → IsOutside slot (node leaf a x q leaf)
      → Ends slot
          (node leaf a x q leaf)
          tree
          h
          (some leaf)
          (unlink_leaf tree (some a) (owner slot) h)
  unfolding unlink_leaf
  leaf_Ends root_slot a x q tree h par here at out = (
    record tree { root = none },
    write h a none,
    rw (delete-ok h a (node_of x q none none) here) refl,
    tt,
    record { lower = refl },
    refl,
    (λ ne. absurd (ne refl)),
    λ b n m. ground arith,
  )
  leaf_Ends (left_slot c y s r) a x q tree h par here at out =
      child_Ends (left_slot c y s r) (node leaf a x q leaf) leaf a c (node_of x q none none) tree h
        refl here (ground arith) at out (λ b i. ground arith) refl tt
  leaf_Ends (right_slot c y s r) a x q tree h par here at out =
      child_Ends (right_slot c y s r) (node leaf a x q leaf) leaf a c (node_of x q none none) tree h
        refl here (ground arith) at out (λ b i. ground arith) refl tt

  single_root :
      (child : Node A → Ptr) (tree : BinaryTree) (h g : Heap A) (a : ℕ) (n : Node A)
      → tree.root ≡ some a
      → h a ≡ some n
      → set_parent (child n) none h ≡ ok tt g
      → g a ≡ some n
      → unlink_single child tree (some a) none h
        ≡ ok (record tree { root = child n }) (write g a none)
  unfolding unlink_single
  single_root child tree h g a n at here run here' =
      rw (at, load-ok h a n here, run, delete-ok g a n here') refl

  single_child :
      (child : Node A → Ptr) (tree : BinaryTree) (h : Heap A) (a p : ℕ) (n : Node A)
      → h a ≡ some n
      → unlink_single child tree (some a) (some p) h
        ≡ (replace_child (some p) (some a) (child n) >> (delete (some a) >> pure tree)) h
  unfolding unlink_single
  single_child child tree h a p n here = rw (load-ok h a n here) refl

  pub single_Ends :
      (child : Node A → Ptr) (slot : Slot A) (s s' : Shape A) (a : ℕ) (n : Node A)
      (tree : BinaryTree) (h : Heap A)
      → h a ≡ some n
      → child n ≡ ptr s'
      → ptr s' ≢ none
      → has a s ≡ true
      → PointsTo slot tree h (some a)
      → IsOutside slot s
      → ((b : ℕ) → has b s' ≡ true → has b s ≡ true)
      → has a s' ≡ false
      → Holds h s'
      → IsDistinct s'
      → Ends slot s tree h
          (some (moved_up (owner slot) s'))
          (unlink_single child tree (some a) (owner slot) h)
  single_Ends child root_slot s s' a n tree h here e ne i at out inside miss m d =
      let (g, run, m', same) = set_parent-reparent h s' none ne m d in
      let here' : g a ≡ some n = same a miss ∙ here in
      (
        record tree { root = child n },
        write g a none,
        single_root child tree h g a n at.lower here (ap (λ u. set_parent u none h) e ∙ run) here',
        Holds-write g (reparent s' none) a none (has-reparent a s' none ∙ miss) m',
        record { lower = e ∙ sym (ptr-reparent s' none) },
        refl,
        (λ ne. absurd (ne refl)),
        λ b o _. write-other g a b none (has_ne' s a b i o) ∙ same b (outside s s' b (inside b) o),
      )
  single_Ends child (left_slot c y u w) s s' a n tree h here e ne i at out inside miss m d =
      rw (single_child child tree h a c n here, e)
        (child_Ends (left_slot c y u w) s s' a c n tree h refl here i at out inside miss m)
  single_Ends child (right_slot c y u w) s s' a n tree h here e ne i at out inside miss m d =
      rw (single_child child tree h a c n here, e)
        (child_Ends (right_slot c y u w) s s' a c n tree h refl here i at out inside miss m)
