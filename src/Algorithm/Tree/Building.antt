-- ===== src/Algorithm/Tree/Building.antt =====
-- `add` of algorithm/tree.hpp, and trees that it builds.
use cpp_prac.Prelude.{
  ℕ, ◌+◌, ◌≤◌, Bool, true, false, not, ◌||◌, ◌&&◌, none, some, ◌==◌, if◌then◌else◌, ◌≡◌, ◌≢◌, refl,
  sym, ap, ◌∙◌, arith,
}
use cpp_prac.Prelude.Order.{Order, eq}
use cpp_prac.Algorithm.Tree.{BinaryTree, new_node, add}
use cpp_prac.Algorithm.Tree.Nodes.{node_of, Heap, write, ok}
use cpp_prac.Algorithm.Tree.Shapes.{
  IsTree, Shape, leaf, node, ptr, has, items, count, height, height-count, HasParents, IsOrdered,
  contains,
}
use cpp_prac.Algorithm.Tree.Insert.{
  contains-insert, count-insert, has-insert, insert, insert-HasParents, insert-IsDistinct,
  insert-IsOrdered, ptr-insert_node,
}
use cpp_prac.Algorithm.Tree.Adding.{add_loop-insert}
use cpp_prac.Algorithm.Tree.Members.{member, contains-items}

in_added :
    (b f : ℕ) (new old c : Bool)
    → new ≡ (old || (b == f) && not c)
    → new ≡ true
    → ((b == f) || old) ≡ true
in_added b f new old c e i = ground arith

module _ {ℓ} {A : Type ℓ} ⦃o : Order A⦄ where
  -- `add` at the address `f`: the outcome for a tree that stands at `s`.
  abbrev pub AddsTo : BinaryTree → Shape A → ℕ → A → Heap A → Type ℓ
  AddsTo tree s f t h =
      (tree' : BinaryTree) × (g : Heap A) × (add tree t f h ≡ ok tree' g)
      × IsTree g tree' (insert s none f t)
      × ((b : ℕ) → has b s ≡ false → (b == f) ≡ false → g b ≡ h b)

  ptr-node : (s : Shape A) → (count s == 0) ≡ false → ptr s ≢ none
  ptr-node leaf h e = ground arith
  ptr-node (node l a x q r) h e = ground arith

  add_first :
      (h : Heap A) (tree : BinaryTree) (f : ℕ) (t : A)
      → (tree.size == 0) ≡ true
      → AddsTo tree leaf f t h
  unfolding add new_node insert
  add_first h tree f t e = (
    record { root = some f; size = 1 },
    write h f (some (node_of t none none none)),
    rw e refl,
    record {
      root = λ e. refl;
      size = refl;
      holds = (ground arith, tt, tt);
      distinct = (refl, refl, (λ b i. refl), tt, tt);
      ordered = (tt, tt, tt, tt);
    },
    λ b i n. ground arith,
  )

  add_more :
      (h : Heap A) (tree : BinaryTree) (s : Shape A) (f : ℕ) (t : A)
      → IsTree h tree s
      → has f s ≡ false
      → (tree.size == 0) ≡ false
      → AddsTo tree s f t h
  unfolding add
  add_more h tree s f t v fresh e =
      let some_node : ptr s ≢ none = ptr-node s (ground (arith, v.size)) in
      let high : height s ≤ tree.size = omega (arith, height-count s, v.size) in
      let (g, run, m, same) =
        add_loop-insert tree.size h s none f t some_node high v.holds v.distinct fresh in
      (
        (if not (contains s t) then record tree { size = tree.size + 1 } else tree),
        g,
        ground (arith, run, v.root e),
        record {
          root = λ n. ground (arith, v.root e, ptr-insert_node s none f t some_node);
          size = ground (arith, count-insert s none f t, v.size);
          holds = m;
          distinct = insert-IsDistinct s none f t fresh v.distinct;
          ordered = insert-IsOrdered s none f t v.ordered;
        },
        same,
      )

  -- What an addition at the address `f` leaves.
  abbrev pub Added : BinaryTree → Shape A → ℕ → A → Heap A → Type ℓ
  Added tree s f t h =
      (tree' : BinaryTree) × (s' : Shape A) × (g : Heap A) × (add tree t f h ≡ ok tree' g)
      × IsTree g tree' s'
      × HasParents none s'
      × ((x : A) → member (items s') x ≡ (member (items s) x || eq t x))
      × ((b : ℕ) → has b s' ≡ true → ((b == f) || has b s) ≡ true)
      × ((b : ℕ) → has b s ≡ false → (b == f) ≡ false → g b ≡ h b)

  added :
      (tree : BinaryTree) (s : Shape A) (f : ℕ) (t : A) (h : Heap A)
      → IsOrdered s
      → HasParents none s
      → AddsTo tree s f t h
      → Added tree s f t h
  added tree s f t h ord par (tree', g, run, v, same) = (
    tree',
    insert s none f t,
    g,
    run,
    v,
    insert-HasParents s none f t par,
    (λ x.
        sym (contains-items (insert s none f t) x v.ordered)
        ∙ contains-insert s none f t x
        ∙ ap (λ b. b || eq t x) (contains-items s x ord)),
    (λ b i.
        in_added b f (has b (insert s none f t)) (has b s) (contains s t) (has-insert s none f t b)
          i),
    same,
  )

  -- `add` of an item at an address outside of a search tree leaves a search tree with true parent
  -- pointers that has this item and those of before, and touches no address but its own and those of
  -- the tree.
  pub add-member :
      (tree : BinaryTree) (s : Shape A) (f : ℕ) (t : A) (h : Heap A)
      → IsTree h tree s
      → HasParents none s
      → has f s ≡ false
      → Added tree s f t h
  add-member tree leaf f t h v par fresh =
      added tree leaf f t h tt par (add_first h tree f t (ground (arith, v.size)))
  add-member tree (node l a x q r) f t h v par fresh =
      added tree (node l a x q r) f t h v.ordered par
        (add_more h tree (node l a x q r) f t v fresh (ground (arith, v.size)))
