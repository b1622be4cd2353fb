-- ===== src/Algorithm/Tree/Slots.antt =====
-- The place that points to a subtree: the root of the tree, or a child of a node.
use cpp_prac.Prelude.{ℕ, Bool, true, false, none, some, ◌==◌, ◌≡◌, ◌≢◌, refl, arith}
use mathlib.Core.Logic.{Lift}
use cpp_prac.Prelude.Order.{Order}
use cpp_prac.Algorithm.Tree.{BinaryTree, replace_child, replace_other}
use cpp_prac.Algorithm.Tree.Nodes.{
  Ptr, same, Node, node_of, Heap, write, Run, ok, set_parent, load-ok, update-ok,
}
use cpp_prac.Algorithm.Tree.Shapes.{
  Shape, leaf, node, ptr, has, Holds, IsDistinct, Holds-write, reparent,
}

-- The owner of a child slot with its item, its parent pointer and its other child.
pub data Slot {ℓ} (A : Type ℓ) : Type ℓ where
  root_slot : Slot A
  left_slot : ℕ → A → Ptr → Ptr → Slot A
  right_slot : ℕ → A → Ptr → Ptr → Slot A

module _ {ℓ} {A : Type ℓ} where
  abbrev pub owner : Slot A → Ptr
  owner root_slot = none
  owner (left_slot a x q r) = some a
  owner (right_slot a x q l) = some a

  abbrev pub owns : ℕ → Slot A → Bool
  owns b root_slot = false
  owns b (left_slot a x q r) = b == a
  owns b (right_slot a x q l) = b == a

  -- The slot has the pointer `p`.
  abbrev pub PointsTo : Slot A → BinaryTree → Heap A → Ptr → Type ℓ
  PointsTo root_slot tree h p = Lift {0, ℓ} (tree.root ≡ p)
  PointsTo (left_slot a x q r) tree h p = h a ≡ some (node_of x q p r)
  PointsTo (right_slot a x q l) tree h p = h a ≡ some (node_of x q l p)

  -- The owner stands outside of a subtree, and so does its left child where the subtree is the right one.
  abbrev pub IsOutside : Slot A → Shape A → Type 0
  IsOutside root_slot s = Unit
  IsOutside (left_slot a x q r) s = has a s ≡ false
  IsOutside (right_slot a x q l) s =
      (has a s ≡ false) × ((b : ℕ) → has b s ≡ true → same l (some b) ≡ false)

module _ {ℓ} {A : Type ℓ} ⦃o : Order A⦄ where
  -- A change of the pointer in a slot.
  abbrev pub Fills :
      (Ptr → Ptr → Ptr → Heap A → Run A (Unit {0}))
      → Slot A
      → ℕ
      → Ptr
      → BinaryTree
      → Heap A
      → Type ℓ
  Fills replace slot cur new tree h =
      (g : Heap A) × (replace (owner slot) (some cur) new h ≡ ok tt g)
      × PointsTo slot tree g new
      × ((b : ℕ) → owns b slot ≡ false → g b ≡ h b)

  pub replace_child-PointsTo :
      (slot : Slot A) (tree : BinaryTree) (h : Heap A) (s : Shape A) (cur p : ℕ) (new : Ptr)
      → owner slot ≡ some p
      → PointsTo slot tree h (some cur)
      → IsOutside slot s
      → has cur s ≡ true
      → Fills replace_child slot cur new tree h
  unfolding replace_child
  replace_child-PointsTo root_slot tree h s cur p new e at out i = ground arith
  replace_child-PointsTo (left_slot a x q r) tree h s cur p new e at out i = (
    write h a (some (node_of x q new r)),
    ground (
      arith,
      load-ok h a (node_of x q (some cur) r) at,
      update-ok h a (node_of x q (some cur) r) (λ n. record n { left = new }) at,
    ),
    ground arith,
    λ b n. ground arith,
  )
  replace_child-PointsTo (right_slot a x q l) tree h s cur p new e at out i = (
    write h a (some (node_of x q l new)),
    ground (
      arith,
      out.1 cur i,
      load-ok h a (node_of x q l (some cur)) at,
      update-ok h a (node_of x q l (some cur)) (λ n. record n { right = new }) at,
    ),
    ground arith,
    λ b n. ground arith,
  )

  pub replace_other-PointsTo :
      (slot : Slot A) (tree : BinaryTree) (h : Heap A) (s : Shape A) (cur p : ℕ) (new : Ptr)
      → owner slot ≡ some p
      → PointsTo slot tree h (some cur)
      → IsOutside slot s
      → has cur s ≡ true
      → Fills replace_other slot cur new tree h
  unfolding replace_other
  replace_other-PointsTo root_slot tree h s cur p new e at out i = ground arith
  replace_other-PointsTo (left_slot a x q r) tree h s cur p new e at out i = (
    write h a (some (node_of x q new r)),
    ground (
      arith,
      load-ok h a (node_of x q (some cur) r) at,
      update-ok h a (node_of x q (some cur) r) (λ n. record n { left = new }) at,
    ),
    ground arith,
    λ b n. ground arith,
  )
  replace_other-PointsTo (right_slot a x q l) tree h s cur p new e at out i = (
    write h a (some (node_of x q l new)),
    ground (
      arith,
      out.1 cur i,
      load-ok h a (node_of x q l (some cur)) at,
      update-ok h a (node_of x q l (some cur)) (λ n. record n { right = new }) at,
    ),
    ground arith,
    λ b n. ground arith,
  )

  -- A new parent pointer at the root of a subtree.
  pub set_parent-reparent :
      (h : Heap A) (s : Shape A) (p : Ptr)
      → ptr s ≢ none
      → Holds h s
      → IsDistinct s
      → (g : Heap A) × (set_parent (ptr s) p h ≡ ok tt g)
        × Holds g (reparent s p)
        × ((b : ℕ) → has b s ≡ false → g b ≡ h b)
  set_parent-reparent h leaf p some_node m d = absurd (some_node refl)
  set_parent-reparent h (node l a x q r) p some_node m d =
      let n : Node A = node_of x q (ptr l) (ptr r) in
      let n' : Node A = node_of x p (ptr l) (ptr r) in
      (
        write h a (some n'),
        update-ok h a n (λ n. record n { parent = p }) m.0,
        (ground arith, Holds-write h l a (some n') d.0 m.1, Holds-write h r a (some n') d.1 m.2),
        λ b i. ground arith,
      )

  pub ptr-reparent : (s : Shape A) (p : Ptr) → ptr (reparent s p) ≡ ptr s
  ptr-reparent leaf p = refl
  ptr-reparent (node l a x q r) p = refl

  pub has-reparent : (b : ℕ) (s : Shape A) (p : Ptr) → has b (reparent s p) ≡ has b s
  has-reparent b leaf p = refl
  has-reparent b (node l a x q r) p = refl

  pub reparent-IsDistinct : (s : Shape A) (p : Ptr) → IsDistinct s → IsDistinct (reparent s p)
  reparent-IsDistinct leaf p d = d
  reparent-IsDistinct (node l a x q r) p d = d

  -- The owner is not in the subtree.
  pub IsOutside-owns :
      (slot : Slot A) (s : Shape A) (b : ℕ)
      → IsOutside slot s
      → has b s ≡ true
      → owns b slot ≡ false
  IsOutside-owns root_slot s b out i = refl
  IsOutside-owns (left_slot a x q r) s b out i = ground arith
  IsOutside-owns (right_slot a x q l) s b out i = ground arith

  pub PointsTo-frame :
      (slot : Slot A) (tree : BinaryTree) (h g : Heap A) (p : Ptr)
      → ((b : ℕ) → owns b slot ≡ true → g b ≡ h b)
      → PointsTo slot tree h p
      → PointsTo slot tree g p
  PointsTo-frame root_slot tree h g p same at = at
  PointsTo-frame (left_slot a x q r) tree h g p same at = ground (arith, same a)
  PointsTo-frame (right_slot a x q l) tree h g p same at = ground (arith, same a)

  pub IsOutside-has :
      (slot : Slot A) (s : Shape A) (b : ℕ)
      → IsOutside slot s
      → owns b slot ≡ true
      → has b s ≡ false
  IsOutside-has root_slot s b out i = ground arith
  IsOutside-has (left_slot a x q r) s b out i = grind arith
  IsOutside-has (right_slot a x q l) s b out i = grind (arith, out.0)

  pub owns_ne :
      (slot : Slot A) (a b : ℕ) → owns b slot ≡ true → owns a slot ≡ false → (b == a) ≡ false
  owns_ne root_slot a b h k = ground arith
  owns_ne (left_slot c x q r) a b h k = grind arith
  owns_ne (right_slot c x q l) a b h k = grind arith
