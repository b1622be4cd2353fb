-- ===== src/Algorithm/Tree/Lifting.antt =====
-- The turns of the loop of `del` of algorithm/tree.hpp.
use cpp_prac.Prelude.{
  ℕ, suc, Bool, true, false, Option, none, some, ◌==◌, ◌≡◌, ◌≢◌, refl, ap, ◌∙◌, arith,
}
use mathlib.Core.Option
use cpp_prac.Prelude.Order.{Order, lt, gt}
use cpp_prac.Algorithm.Tree.{BinaryTree, unlink, del_loop}
use cpp_prac.Algorithm.Tree.Nodes.{
  Ptr, same, node_of, Heap, Run, ok, fault, and_then, pure, load-ok,
}
use cpp_prac.Algorithm.Tree.Shapes.{Shape, node, ptr, has, or_false, Holds, IsDistinct, Holds-frame}
use cpp_prac.Algorithm.Tree.Slots.{
  Slot, left_slot, right_slot, owner, owns, PointsTo, IsOutside, IsOutside-has, PointsTo-frame,
}
use cpp_prac.Algorithm.Tree.Detaching.{left_frame}
use cpp_prac.Algorithm.Tree.Unlinking.{has_ne, Ends}

module _ {ℓ} {A : Type ℓ} ⦃o : Order A⦄ where
  -- What a change of the right subtree and of the link to it leaves alone.
  right_frame :
      (slot : Slot A) (l : Shape A) (a : ℕ) (x : A) (q : Ptr) (r : Shape A) (h g : Heap A)
      → IsDistinct (node l a x q r)
      → IsOutside slot (node l a x q r)
      → ((b : ℕ) → has b r ≡ false → (b == a) ≡ false → g b ≡ h b)
      → Holds h l
      → Holds g l
        × ((b : ℕ) → owns b slot ≡ true → g b ≡ h b)
        × ((b : ℕ) → has b (node l a x q r) ≡ false → owns b slot ≡ false → g b ≡ h b)
  right_frame slot l a x q r h g d out same m = (
    Holds-frame g h l (λ b i. same b (d.2 b i) (has_ne l a b i d.0)) m,
    (λ b i.
        let (n, _, n') =
          or_false (b == a) (has b l) (has b r) (IsOutside-has slot (node l a x q r) b out i) in
        same b n' n),
    (λ b i _. let (n, _, n') = or_false (b == a) (has b l) (has b r) i in same b n' n),
  )

  -- How a call of `del_loop` on the subtree `s` in a slot ends, where `result` is to be in its place.
  abbrev pub Deletes :
      Slot A
      → Shape A
      → BinaryTree
      → Heap A
      → Bool
      → Option (Shape A)
      → Run A (Bool × BinaryTree)
      → Type ℓ
  Deletes slot s tree h found none run = run ≡ fault
  Deletes slot s tree h found (some s') run =
      (tree' : BinaryTree) × (g : Heap A) × (run ≡ ok (found, tree') g)
      × Holds g s'
      × PointsTo slot tree' g (ptr s')
      × (tree'.size ≡ tree.size)
      × (owner slot ≢ none → tree' ≡ tree)
      × ((b : ℕ) → has b s ≡ false → owns b slot ≡ false → g b ≡ h b)

  pub Ends-Deletes :
      (slot : Slot A) (s : Shape A) (tree : BinaryTree) (h : Heap A) (result : Option (Shape A))
      (run : Run A BinaryTree)
      → Ends slot s tree h result run
      → Deletes slot s tree h true result (and_then run (λ t. pure (true, t)))
  Ends-Deletes slot s tree h none run e = rw e refl
  Ends-Deletes slot s tree h (some s') run (tree', g, e, hs, at, size, keep, same) =
      (tree', g, rw e refl, hs, at, size, keep, same)

  module _ (k fuel : ℕ) (tree : BinaryTree) (h : Heap A) (l : Shape A) (a : ℕ) (x : A) (q : Ptr)
      (r : Shape A) (t : A) (m : Holds h (node l a x q r)) where
    pub loop_here :
        gt t x ≡ false
        → lt t x ≡ false
        → del_loop (suc k) fuel t tree (some a) h
          ≡ and_then (unlink fuel tree (some a) h) (λ u. pure (true, u))
    unfolding del_loop
    loop_here no_gt no_lt = ground (arith, load-ok h a (node_of x q (ptr l) (ptr r)) m.0)

    pub loop_right :
        gt t x ≡ true
        → (b : ℕ) → ptr r ≡ some b
        → del_loop (suc k) fuel t tree (some a) h ≡ del_loop k fuel t tree (some b) h
    unfolding del_loop
    loop_right is_gt b e = ground (arith, load-ok h a (node_of x q (ptr l) (ptr r)) m.0)

    pub loop_left :
        gt t x ≡ false
        → lt t x ≡ true
        → (b : ℕ) → ptr l ≡ some b
        → del_loop (suc k) fuel t tree (some a) h ≡ del_loop k fuel t tree (some b) h
    unfolding del_loop
    loop_left no_gt is_lt b e = ground (arith, load-ok h a (node_of x q (ptr l) (ptr r)) m.0)

    pub stop_right :
        gt t x ≡ true → ptr r ≡ none → del_loop (suc k) fuel t tree (some a) h ≡ ok (false, tree) h
    unfolding del_loop
    stop_right is_gt e = ground (arith, load-ok h a (node_of x q (ptr l) (ptr r)) m.0)

    pub stop_left :
        gt t x ≡ false
        → lt t x ≡ true
        → ptr l ≡ none
        → del_loop (suc k) fuel t tree (some a) h ≡ ok (false, tree) h
    unfolding del_loop
    stop_left no_gt is_lt e = ground (arith, load-ok h a (node_of x q (ptr l) (ptr r)) m.0)

  -- Nothing changes where the item is not found.
  pub stays :
      (slot : Slot A) (s : Shape A) (tree : BinaryTree) (h : Heap A)
      (run : Run A (Bool × BinaryTree))
      → run ≡ ok (false, tree) h
      → Holds h s
      → PointsTo slot tree h (ptr s)
      → Deletes slot s tree h false (some s) run
  stays slot s tree h run e m at = (tree, h, e, m, at, refl, (λ _. refl), (λ b i own. refl))

  module _ (slot : Slot A) (l : Shape A) (a : ℕ) (x : A) (q : Ptr) (r : Shape A) (tree : BinaryTree)
      (h : Heap A) (found : Bool) (run : Run A (Bool × BinaryTree)) (m : Holds h (node l a x q r))
      (d : IsDistinct (node l a x q r)) (at : PointsTo slot tree h (some a))
      (out : IsOutside slot (node l a x q r)) where
    pub lift_right :
        (result : Option (Shape A))
        → Deletes (right_slot a x q (ptr l)) r tree h found result run
        → Deletes slot (node l a x q r) tree h found (Option.map (λ s. node l a x q s) result) run
    lift_right none e = e
    lift_right (some s) (tree', g, e, hs, at', size, keep, same) =
        let (ml, same_owner, same_else) = right_frame slot l a x q r h g d out same m.1 in
        (
          tree,
          g,
          e ∙ ap (λ u. ok (found, u) g) (keep (λ e. ground arith)),
          (at', ml, hs),
          PointsTo-frame slot tree h g (some a) same_owner at,
          refl,
          (λ _. refl),
          same_else,
        )

    pub lift_left :
        (result : Option (Shape A))
        → Deletes (left_slot a x q (ptr r)) l tree h found result run
        → Deletes slot (node l a x q r) tree h found (Option.map (λ s. node s a x q r) result) run
    lift_left none e = e
    lift_left (some s) (tree', g, e, hs, at', size, keep, same) =
        let (mr, same_owner, same_else) = left_frame slot l a x q r h g d out same m.2 in
        (
          tree,
          g,
          e ∙ ap (λ u. ok (found, u) g) (keep (λ e. ground arith)),
          (at', hs, mr),
          PointsTo-frame slot tree h g (some a) same_owner at,
          refl,
          (λ _. refl),
          same_else,
        )
