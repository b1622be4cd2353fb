-- ===== src/Algorithm/Tree/Freeing.antt =====
-- The destructor of algorithm/tree.hpp.
use cpp_prac.Prelude.{
  ℕ, zero, suc, ◌+◌, ◌≤◌, Bool, true, false, ◌||◌, Option, none, some, ◌==◌, if◌then◌else◌, ◌≡◌,
  refl, arith,
}
use cpp_prac.Prelude.Order.{Order}
use cpp_prac.Algorithm.Tree.{BinaryTree, free_node, destroy}
use cpp_prac.Algorithm.Tree.Nodes.{Ptr, Node, node_of, Heap, write, ok, delete, load-ok}
use cpp_prac.Algorithm.Tree.Shapes.{
  Shape, leaf, node, ptr, has, count, height, height-count, max-bounds, Holds, IsDistinct,
  Holds-frame, IsTree,
}

freed_at {ℓ} :
    {A : Type ℓ} (b a : ℕ) (in_l in_r : Bool) (u v : Option A)
    → (in_l ≡ true → u ≡ none)
    → (in_r ≡ true → v ≡ none)
    → (in_r ≡ false → v ≡ u)
    → ((b == a) || (in_l || in_r)) ≡ true
    → (if b == a then none else v) ≡ none
freed_at b a in_l in_r u v gone gone' same h = ground arith

module _ {ℓ} {A : Type ℓ} ⦃o : Order A⦄ where
  -- Frees the addresses of the tree and no others.
  abbrev Frees : ℕ → Shape A → Heap A → Type ℓ
  Frees k s h =
      (g : Heap A) × (free_node k (ptr s) h ≡ ok tt g)
      × ((b : ℕ) → has b s ≡ true → g b ≡ none)
      × ((b : ℕ) → has b s ≡ false → g b ≡ h b)

  free_step :
      (k : ℕ) (h g g' : Heap A) (a : ℕ) (x : A) (q : Ptr) (l r : Shape A)
      → h a ≡ some (node_of x q (ptr l) (ptr r))
      → free_node k (ptr l) h ≡ ok tt g
      → g a ≡ some (node_of x q (ptr l) (ptr r))
      → free_node k (ptr r) g ≡ ok tt g'
      → g' a ≡ some (node_of x q (ptr l) (ptr r))
      → free_node (suc k) (some a) h ≡ ok tt (write g' a none)
  unfolding free_node delete
  free_step k h g g' a x q l r here run here' run' here'' =
      let n : Node A = node_of x q (ptr l) (ptr r) in
      rw (load-ok h a n here, run, load-ok g a n here', run', here'', delete) refl

  free_node-all :
      (k : ℕ) (h : Heap A) (s : Shape A) → height s ≤ k → Holds h s → IsDistinct s → Frees k s h
  unfolding free_node delete
  free_node-all k h leaf high m d = (h, refl, (λ b i. ground arith), (λ b i. refl))
  free_node-all zero h (node l a x q r) high m d = absurd (ground arith)
  free_node-all (suc k) h (node l a x q r) high m d =
      let (low_l, low_r) = max-bounds (height l) (height r) k high in
      let (g, run, gone, same) = free_node-all k h l low_l m.1 d.3 in
      let mr : Holds g r = Holds-frame g h r (λ b i. same b (ground (arith, d.2 b))) m.2 in
      let (g', run', gone', same') = free_node-all k g r low_r mr d.4 in
      let here : g a ≡ some (node_of x q (ptr l) (ptr r)) = ground (arith, same a, m.0) in
      let here' : g' a ≡ some (node_of x q (ptr l) (ptr r)) = ground (arith, same' a) in
      (
        write g' a none,
        free_step k h g g' a x q l r m.0 run here run' here',
        (λ b i. freed_at b a (has b l) (has b r) (g b) (g' b) (gone b) (gone' b) (same' b) i),
        (λ b i. ground (arith, same b, same' b)),
      )

  destroy_run :
      (h g : Heap A) (tree : BinaryTree) (a : ℕ)
      → tree.root ≡ some a
      → free_node (tree.size + 1) (some a) h ≡ ok tt g
      → destroy tree h ≡ ok (record tree { size = 0 }) g
  unfolding destroy
  destroy_run h g tree a e run = ground (arith, run)

  destroy_node :
      (h g : Heap A) (tree : BinaryTree) (s : Shape A)
      → tree.root ≡ ptr s
      → (count s == 0) ≡ false
      → free_node (tree.size + 1) (ptr s) h ≡ ok tt g
      → destroy tree h ≡ ok (record tree { size = 0 }) g
  destroy_node h g tree leaf e some_node run = ground arith
  destroy_node h g tree (node l a x q r) e some_node run = destroy_run h g tree a e run

  -- The destructor deletes every node of a tree that is not empty, once, and touches no other
  -- address; the tree has the size 0.
  pub destroy-all :
      (h : Heap A) (tree : BinaryTree) (s : Shape A)
      → IsTree h tree s
      → (tree.size == 0) ≡ false
      → (g : Heap A) × (destroy tree h ≡ ok (record tree { size = 0 }) g)
        × ((b : ℕ) → g b ≡ (if has b s then none else h b))
  unfolding destroy
  destroy-all h tree s v e =
      let (g, run, gone, same) =
        free_node-all (tree.size + 1) h s (omega (arith, height-count s, v.size)) v.holds
          v.distinct in
      (
        g,
        destroy_node h g tree s (v.root e) (ground (arith, v.size)) run,
        (λ b. ground (arith, gone b, same b)),
      )
