-- ===== src/Algorithm/Tree/Searching.antt =====
-- The loop of `del` of algorithm/tree.hpp.
use cpp_prac.Prelude.{
  ℕ, zero, suc, ◌≤◌, true, false, none, some, ◌≡◌, ◌≢◌, refl, inl, inr, Bool-cases, arith,
}
use cpp_prac.Prelude.Order.{Order, lt, gt}
use cpp_prac.Algorithm.Tree.{BinaryTree, unlink, del_loop}
use cpp_prac.Algorithm.Tree.Nodes.{Ptr, Heap}
use cpp_prac.Algorithm.Tree.Shapes.{
  Shape, leaf, node, ptr, height, max-bounds, Holds, IsDistinct, HasParents, contains,
}
use cpp_prac.Algorithm.Tree.Removal.{without_root, remove}
use cpp_prac.Algorithm.Tree.Unfolding.{
  remove_here, remove_right, remove_left, contains_here, contains_right, contains_left,
}
use cpp_prac.Algorithm.Tree.Slots.{Slot, left_slot, right_slot, owner, PointsTo, IsOutside}
use cpp_prac.Algorithm.Tree.Deleting.{right-IsOutside, unlink-Ends}
use cpp_prac.Algorithm.Tree.Lifting.{
  Deletes, Ends-Deletes, loop_here, loop_right, loop_left, stop_right, stop_left, stays, lift_right,
  lift_left,
}

module _ {ℓ} {A : Type ℓ} ⦃o : Order A⦄ where
  -- A tree with its place, as the loop finds it.
  pub record IsAt (slot : Slot A) (s : Shape A) (tree : BinaryTree) (h : Heap A) : Type ℓ where
    pub parents : HasParents (owner slot) s
    pub holds : Holds h s
    pub distinct : IsDistinct s
    pub points : PointsTo slot tree h (ptr s)
    pub outside : IsOutside slot s

  right_IsAt :
      (slot : Slot A) (l : Shape A) (a : ℕ) (x : A) (q : Ptr) (r : Shape A) (tree : BinaryTree)
      (h : Heap A)
      → IsAt slot (node l a x q r) tree h
      → IsAt (right_slot a x q (ptr l)) r tree h
  right_IsAt slot l a x q r tree h v = record {
    parents = v.parents.2;
    holds = v.holds.2;
    distinct = v.distinct.4;
    points = v.holds.0;
    outside = right-IsOutside l a x q r v.distinct;
  }

  left_IsAt :
      (slot : Slot A) (l : Shape A) (a : ℕ) (x : A) (q : Ptr) (r : Shape A) (tree : BinaryTree)
      (h : Heap A)
      → IsAt slot (node l a x q r) tree h
      → IsAt (left_slot a x q (ptr r)) l tree h
  left_IsAt slot l a x q r tree h v = record {
    parents = v.parents.1;
    holds = v.holds.1;
    distinct = v.distinct.3;
    points = v.holds.0;
    outside = v.distinct.0;
  }

  abbrev Loops : ℕ → ℕ → Slot A → Shape A → BinaryTree → Heap A → A → Type ℓ
  Loops k fuel slot s tree h t =
      Deletes slot s tree h (contains s t) (remove s (owner slot) t)
        (del_loop k fuel t tree (ptr s) h)

  go_right :
      (k fuel : ℕ) (slot : Slot A) (l : Shape A) (a : ℕ) (x : A) (q : Ptr) (r : Shape A)
      (tree : BinaryTree) (h : Heap A) (t : A)
      → IsAt slot (node l a x q r) tree h
      → gt t x ≡ true
      → (ptr r ≢ none → Loops k fuel (right_slot a x q (ptr l)) r tree h t)
      → Loops (suc k) fuel slot (node l a x q r) tree h t
  unfolding remove contains
  go_right k fuel slot l a x q leaf tree h t v is_gt ih =
      rw
        (
          contains_right l a x q leaf (owner slot) t is_gt,
          remove_right l a x q leaf (owner slot) t is_gt,
        )
        (stays slot (node l a x q leaf) tree h (del_loop (suc k) fuel t tree (some a) h)
          (stop_right k fuel tree h l a x q leaf t v.holds is_gt refl) v.holds v.points)
  go_right k fuel slot l a x q (node rl b y s rr) tree h t v is_gt ih =
      let r : Shape A = node rl b y s rr in
      rw
        (
          contains_right l a x q r (owner slot) t is_gt,
          remove_right l a x q r (owner slot) t is_gt,
          loop_right k fuel tree h l a x q r t v.holds is_gt b refl,
        )
        (lift_right slot l a x q r tree h (contains r t) (del_loop k fuel t tree (some b) h) v.holds
          v.distinct v.points v.outside (remove r (some a) t) (ih (λ e. ground arith)))

  go_left :
      (k fuel : ℕ) (slot : Slot A) (l : Shape A) (a : ℕ) (x : A) (q : Ptr) (r : Shape A)
      (tree : BinaryTree) (h : Heap A) (t : A)
      → IsAt slot (node l a x q r) tree h
      → gt t x ≡ false
      → lt t x ≡ true
      → (ptr l ≢ none → Loops k fuel (left_slot a x q (ptr r)) l tree h t)
      → Loops (suc k) fuel slot (node l a x q r) tree h t
  unfolding remove contains
  go_left k fuel slot leaf a x q r tree h t v no_gt is_lt ih =
      rw
        (
          contains_left leaf a x q r (owner slot) t no_gt is_lt,
          remove_left leaf a x q r (owner slot) t no_gt is_lt,
        )
        (stays slot (node leaf a x q r) tree h (del_loop (suc k) fuel t tree (some a) h)
          (stop_left k fuel tree h leaf a x q r t v.holds no_gt is_lt refl) v.holds v.points)
  go_left k fuel slot (node ll b y s lr) a x q r tree h t v no_gt is_lt ih =
      let l : Shape A = node ll b y s lr in
      rw
        (
          contains_left l a x q r (owner slot) t no_gt is_lt,
          remove_left l a x q r (owner slot) t no_gt is_lt,
          loop_left k fuel tree h l a x q r t v.holds no_gt is_lt b refl,
        )
        (lift_left slot l a x q r tree h (contains l t) (del_loop k fuel t tree (some b) h) v.holds
          v.distinct v.points v.outside (remove l (some a) t) (ih (λ e. ground arith)))

  go_here :
      (k fuel : ℕ) (slot : Slot A) (l : Shape A) (a : ℕ) (x : A) (q : Ptr) (r : Shape A)
      (tree : BinaryTree) (h : Heap A) (t : A)
      → IsAt slot (node l a x q r) tree h
      → height r ≤ fuel
      → gt t x ≡ false
      → lt t x ≡ false
      → Loops (suc k) fuel slot (node l a x q r) tree h t
  go_here k fuel slot l a x q r tree h t v high no_gt no_lt =
      rw
        (
          contains_here l a x q r (owner slot) t no_gt no_lt,
          remove_here l a x q r (owner slot) t no_gt no_lt,
          loop_here k fuel tree h l a x q r t v.holds no_gt no_lt,
        )
        (Ends-Deletes slot (node l a x q r) tree h (without_root l a (owner slot) r)
          (unlink fuel tree (some a) h)
          (unlink-Ends fuel slot l a x q r tree h v.parents.0 v.parents.2 high v.holds v.distinct
            v.points v.outside))

  pub del_loop-remove :
      (k fuel : ℕ) (slot : Slot A) (s : Shape A) (tree : BinaryTree) (h : Heap A) (t : A)
      → ptr s ≢ none
      → height s ≤ k
      → height s ≤ fuel
      → IsAt slot s tree h
      → Loops k fuel slot s tree h t
  del_loop-remove k fuel slot leaf tree h t ne high high' v = absurd (ne refl)
  del_loop-remove zero fuel slot (node l a x q r) tree h t ne high high' v = absurd (ground arith)
  del_loop-remove (suc k) zero slot (node l a x q r) tree h t ne high high' v =
      absurd (ground arith)
  del_loop-remove (suc k) (suc fuel) slot (node l a x q r) tree h t ne high high' v =
      let (low_l, low_r) = max-bounds (height l) (height r) k high in
      let (low_l', low_r') = max-bounds (height l) (height r) fuel high' in
      elim (Bool-cases (gt t x)) [
        | inl is_gt ↦ go_right k (suc fuel) slot l a x q r tree h t v is_gt (λ ne.
            del_loop-remove k (suc fuel) (right_slot a x q (ptr l)) r tree h t ne low_r
              (omega (arith, low_r')) (right_IsAt slot l a x q r tree h v))
        | inr no_gt ↦ elim (Bool-cases (lt t x)) [
          | inl is_lt ↦ go_left k (suc fuel) slot l a x q r tree h t v no_gt is_lt (λ ne.
              del_loop-remove k (suc fuel) (left_slot a x q (ptr r)) l tree h t ne low_l
                (omega (arith, low_l')) (left_IsAt slot l a x q r tree h v))
          | inr no_lt ↦
              go_here k (suc fuel) slot l a x q r tree h t v (omega (arith, low_r')) no_gt no_lt
        ]
      ]
