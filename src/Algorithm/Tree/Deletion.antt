-- ===== src/Algorithm/Tree/Deletion.antt =====
-- What `del` of algorithm/tree.hpp does to a search tree.
use cpp_prac.Prelude.{
  ℕ, ◌-◌, ◌≤◌, Bool, true, false, Option, none, some, ◌==◌, if◌then◌else◌, ◌≡◌, refl, sym, ap,
  subst, ◌∙◌, arith,
}
use cpp_prac.Prelude.Order.{Order}
use cpp_prac.Algorithm.Tree.{BinaryTree, del_loop, del}
use cpp_prac.Algorithm.Tree.Nodes.{Heap, ok, fault}
use cpp_prac.Algorithm.Tree.Shapes.{
  Shape, leaf, node, ptr, has, items, height, height-count, HasParents, IsOrdered, contains, IsTree,
}
use cpp_prac.Algorithm.Tree.Removal.{remove}
use cpp_prac.Algorithm.Tree.Slots.{root_slot}
use cpp_prac.Algorithm.Tree.Lifting.{Deletes}
use cpp_prac.Algorithm.Tree.Searching.{IsAt, del_loop-remove}
use cpp_prac.Algorithm.Tree.Shrinking.{Each}
use cpp_prac.Algorithm.Tree.Without.{without, IsWithout, remove-IsWithout}
use cpp_prac.Algorithm.Tree.Stuck.{is_none, is_stuck, is_none-remove}
use cpp_prac.Algorithm.Tree.Members.{member, contains-items}

root_if :
    (b : Bool) (tree : BinaryTree)
    → (if b then record tree { size = tree.size - 1 } else tree).root ≡ tree.root
root_if b tree = ground arith

module _ {ℓ} {A : Type ℓ} ⦃o : Order A⦄ where
  -- How `del` of `t` ends on a tree that stands at `s`, where `result` is to be left of it.
  abbrev DelEnds : BinaryTree → Shape A → A → Heap A → Option (Shape A) → Type ℓ
  DelEnds tree s t h none = del tree t h ≡ fault
  DelEnds tree s t h (some s') =
      (tree' : BinaryTree) × (g : Heap A) × (del tree t h ≡ ok (contains s t, tree') g)
      × IsTree g tree' s'
      × (items s' ≡ without (items s) t)
      × ((b : ℕ) → has b s ≡ false → g b ≡ h b)

  ends :
      (tree : BinaryTree) (s : Shape A) (t : A) (h : Heap A) (result : Option (Shape A))
      → IsTree h tree s
      → (tree.size == 0) ≡ false
      → Deletes root_slot s tree h
          (contains s t)
          result
          (del_loop tree.size tree.size t tree tree.root h)
      → Each (IsWithout t s) result
      → DelEnds tree s t h result
  unfolding del
  ends tree s t h none v e run w = rw (e, run) refl
  ends tree s t h (some s') v e (tree', g, run, hs, at, size, keep, same) w = (
    (if contains s t then record tree' { size = tree'.size - 1 } else tree'),
    g,
    rw (e, run) refl,
    record {
      root = λ _. root_if (contains s t) tree' ∙ at.lower;
      size = grind (arith, w.count, v.size);
      holds = hs;
      distinct = w.shrunk.distinct v.distinct;
      ordered = w.shrunk.ordered v.ordered;
    },
    w.items,
    λ b i. same b i refl,
  )

  root_IsAt :
      (tree : BinaryTree) (s : Shape A) (h : Heap A)
      → IsTree h tree s
      → HasParents none s
      → tree.root ≡ ptr s
      → IsAt root_slot s tree h
  root_IsAt tree s h v par e = record {
    parents = par;
    holds = v.holds;
    distinct = v.distinct;
    points = record { lower = e };
    outside = tt;
  }

  ends_all :
      (tree : BinaryTree) (s : Shape A) (t : A) (h : Heap A)
      → IsTree h tree s
      → HasParents none s
      → DelEnds tree s t h (remove s none t)
  unfolding del remove contains
  ends_all tree leaf t h v par = (tree, h, rw v.size refl, v, refl, (λ b i. refl))
  ends_all tree (node l a x q r) t h v par =
      let s : Shape A = node l a x q r in
      let e : (tree.size == 0) ≡ false = ground (arith, v.size) in
      let high : height s ≤ tree.size = omega (arith, height-count s, v.size) in
      ends tree s t h (remove s none t) v e
        (subst
          (λ u.
            Deletes root_slot s tree h (contains s t) (remove s none t)
              (del_loop tree.size tree.size t tree u h))
          (sym (v.root e))
          (del_loop-remove tree.size tree.size root_slot s tree h t (λ e. ground arith) high high
            (root_IsAt tree s h v par (v.root e))))
        (remove-IsWithout s none t v.ordered)

  -- What `del` leaves, where it comes to an end.
  abbrev pub Deleted : BinaryTree → Shape A → A → Heap A → Type ℓ
  Deleted tree s t h =
      (tree' : BinaryTree) × (s' : Shape A) × (g : Heap A) × (del tree t h
        ≡ ok (member (items s) t, tree') g)
      × IsTree g tree' s'
      × (items s' ≡ without (items s) t)
      × ((b : ℕ) → has b s ≡ false → g b ≡ h b)

  deleted :
      (tree : BinaryTree) (s : Shape A) (t : A) (h : Heap A) (result : Option (Shape A))
      → IsOrdered s
      → DelEnds tree s t h result
      → (is_none result ≡ true → del tree t h ≡ fault)
        × (is_none result ≡ false → Deleted tree s t h)
  deleted tree s t h none v e = ((λ _. e), (λ n. ground arith))
  deleted tree s t h (some s') v (tree', g, run, ends, left, same) = (
    (λ n. ground arith),
    (λ _. (tree', s', g, run ∙ ap (λ b. ok (b, tree') g) (contains-items s t v), ends, left, same)),
  )

  -- On a search tree whose parent pointers lead to the parents, `del` of an item that stands in a node
  -- with two children, of which the right one has no child, follows a null pointer. In every other
  -- case it returns whether the item was in the tree, and leaves a search tree with the items of
  -- before without that item and with its size, and no other address is touched.
  pub del-without :
      (tree : BinaryTree) (s : Shape A) (t : A) (h : Heap A)
      → IsTree h tree s
      → HasParents none s
      → (is_stuck s t ≡ true → del tree t h ≡ fault) × (is_stuck s t ≡ false → Deleted tree s t h)
  del-without tree s t h v par =
      rw (sym (is_none-remove s none t))
        (deleted tree s t h (remove s none t) v.ordered (ends_all tree s t h v par))
