-- ===== src/Algorithm/Tree/Deleting.antt =====
-- `del` of algorithm/tree.hpp: the search for the node, and its removal.
use cpp_prac.Prelude.{ℕ, ◌≤◌, none, some, ◌≡◌, refl, arith}
use cpp_prac.Prelude.Order.{Order}
use cpp_prac.Algorithm.Tree.{BinaryTree, unlink}
use cpp_prac.Algorithm.Tree.Nodes.{Ptr, same, node_of, Heap}
use cpp_prac.Algorithm.Tree.Shapes.{Shape, leaf, node, ptr, height, Holds, IsDistinct, HasParents}
use cpp_prac.Algorithm.Tree.Removal.{pop_min, without_root}
use cpp_prac.Algorithm.Tree.Slots.{Slot, right_slot, owner, PointsTo, IsOutside}
use cpp_prac.Algorithm.Tree.Detaching.{
  has-pop_min, pop_min-IsDistinct, leftmost-pop_min, detach-pop_min,
}
use cpp_prac.Algorithm.Tree.Unlinking.{
  Ends, leaf_Ends, single_Ends, unlink-none, unlink_right, unlink_left, unlink_two,
}
use cpp_prac.Algorithm.Tree.Pairs.{both_rest}

module _ {ℓ} {A : Type ℓ} ⦃o : Order A⦄ where
  -- The right child's slot has the right subtree outside.
  pub right-IsOutside :
      (l : Shape A) (a : ℕ) (x : A) (q : Ptr) (r : Shape A)
      → IsDistinct (node l a x q r)
      → IsOutside (right_slot a x q (ptr l)) r
  right-IsOutside leaf a x q r d = (d.1, λ b i. refl)
  right-IsOutside (node ll c y s lr) a x q r d = (d.1, λ b i. grind (arith, d.2 c))

  pub unlink-Ends :
      (k : ℕ) (slot : Slot A) (l : Shape A) (a : ℕ) (x : A) (q : Ptr) (r : Shape A)
      (tree : BinaryTree) (h : Heap A)
      → q ≡ owner slot
      → HasParents (some a) r
      → height r ≤ k
      → Holds h (node l a x q r)
      → IsDistinct (node l a x q r)
      → PointsTo slot tree h (some a)
      → IsOutside slot (node l a x q r)
      → Ends slot
          (node l a x q r)
          tree
          h
          (without_root l a (owner slot) r)
          (unlink k tree (some a) h)
  unfolding without_root
  unlink-Ends k slot leaf a x q leaf tree h e par high m d at out =
      rw (unlink-none k tree h a x q m.0, e) (leaf_Ends slot a x q tree h e m.0 at out)
  unlink-Ends k slot leaf a x q (node rl c y s rr) tree h e par high m d at out =
      rw (unlink_right k tree h a x q c m.0, e)
        (single_Ends (λ n. n.right) slot (node leaf a x q (node rl c y s rr)) (node rl c y s rr) a
          (node_of x q none (some c)) tree h m.0 refl (λ e. ground arith) (ground arith) at out
          (λ b i. ground arith) d.1 m.2 d.4)
  unlink-Ends k slot (node ll c y s lr) a x q leaf tree h e par high m d at out =
      rw (unlink_left k tree h a x q c m.0, e)
        (single_Ends (λ n. n.left) slot (node (node ll c y s lr) a x q leaf) (node ll c y s lr) a
          (node_of x q (some c) none) tree h m.0 refl (λ e. ground arith) (ground arith) at out
          (λ b i. ground arith) d.0 m.1 d.3)
  unlink-Ends k slot (node ll c y s lr) a x q (node rl b z u rr) tree h e par high m d at out =
      let l : Shape A = node ll c y s lr in
      let r : Shape A = node rl b z u rr in
      let p = pop_min rl b z u rr in
      let (g, run, rest, here, target, same) =
        detach-pop_min (right_slot a x q (ptr l)) rl b z u rr tree h a refl par m.2 d.4 m.0
          (right-IsOutside l a x q r d) in
      rw (unlink_two k tree h a x q c b m.0) (
        both_rest k slot l a x q r p.0 p.1 p.4 tree h g e m d (λ e. ground arith)
          (leftmost-pop_min k h rl b z u rr high m.2) run
          (record {
            holds = rest;
            here = here;
            parent = p.2;
            moved = ptr p.3;
            target = target;
            same = same;
          })
          (record {
            addresses = has-pop_min rl b z u rr;
            out = (pop_min-IsDistinct rl b z u rr d.4).0;
            distinct = (pop_min-IsDistinct rl b z u rr d.4).1;
          })
          at out)
