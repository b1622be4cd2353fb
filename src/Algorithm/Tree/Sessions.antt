-- ===== src/Algorithm/Tree/Sessions.antt =====
-- Trees that the calls of algorithm/tree.hpp build from the first one on.
use cpp_prac.Prelude.{
  ℕ, ◌≤◌, Bool, true, false, ◌||◌, none, List, [], ◌∷◌, map, ◌==◌, ◌≡◌, refl, ap, ◌∙◌, arith,
}
use cpp_prac.Prelude.Order.{Order, eq}
use cpp_prac.Algorithm.Tree.{BinaryTree, new_tree, add, search, trav_print}
use cpp_prac.Algorithm.Tree.Nodes.{Ptr, Heap, ok, Cmd, pure, ◌>>=◌}
use cpp_prac.Algorithm.Tree.Shapes.{IsTree, Shape, leaf, has, items, height-count, HasParents}
use cpp_prac.Algorithm.Tree.Members.{member}
use cpp_prac.Algorithm.Tree.Visiting.{steps, search-member, trav_print-items}
use cpp_prac.Algorithm.Tree.Building.{add-member}

or_assoc : (b c d : Bool) → ((b || c) || d) ≡ (b || (c || d))
or_assoc b c d = ground arith

not_added :
    (b f : ℕ) (new old more : Bool)
    → (new ≡ true → ((b == f) || old) ≡ true)
    → old ≡ false
    → ((f == b) || more) ≡ false
    → new ≡ false
not_added b f new old more inside e out = grind (arith, inside)

module _ {ℓ} {A : Type ℓ} ⦃o : Order A⦄ where
  -- A call of `add` for each item, at the addresses that `new` returns.
  unfoldable pub add_all : BinaryTree → List (ℕ × A) → Cmd A BinaryTree
  add_all tree [] = pure tree
  add_all tree ((f, t) ∷ ps) = do tree' ← add tree t f; add_all tree' ps

  -- Whether an address is among those of a list.
  abbrev pub uses : ℕ → List (ℕ × A) → Bool
  uses b [] = false
  uses b (p ∷ ps) = (b == p.0) || uses b ps

  -- No address is returned twice, and none that the tree has.
  abbrev pub IsFresh : Shape A → List (ℕ × A) → Type 0
  IsFresh s [] = Unit
  IsFresh s (p ∷ ps) = (has p.0 s ≡ false) × (uses p.0 ps ≡ false) × IsFresh s ps

  uses_more : (f : ℕ) (p : ℕ × A) (ps : List (ℕ × A)) → uses f (p ∷ ps) ≡ false → uses f ps ≡ false
  uses_more f p ps out = ground arith

  IsFresh-added :
      (s s' : Shape A) (f : ℕ) (ps : List (ℕ × A))
      → ((b : ℕ) → has b s' ≡ true → ((b == f) || has b s) ≡ true)
      → uses f ps ≡ false
      → IsFresh s ps
      → IsFresh s' ps
  IsFresh-added s s' f [] inside out v = tt
  IsFresh-added s s' f (p ∷ ps) inside out (here, once, more) = (
    not_added p.0 f (has p.0 s') (has p.0 s) (uses f ps) (inside p.0) here out,
    once,
    IsFresh-added s s' f ps inside (uses_more f p ps out) more,
  )

  -- What a sequence of additions leaves.
  abbrev pub AddedAll : BinaryTree → Shape A → List (ℕ × A) → Heap A → Type ℓ
  AddedAll tree s ps h =
      (tree' : BinaryTree) × (s' : Shape A) × (g : Heap A) × (add_all tree ps h ≡ ok tree' g)
      × IsTree g tree' s'
      × HasParents none s'
      × ((x : A) → member (items s') x ≡ (member (items s) x || member (map (λ p. p.1) ps) x))

  add_all-member :
      (tree : BinaryTree) (s : Shape A) (ps : List (ℕ × A)) (h : Heap A)
      → IsTree h tree s
      → HasParents none s
      → IsFresh s ps
      → AddedAll tree s ps h
  unfolding add_all
  add_all-member tree s [] h v par fresh = (tree, s, h, refl, v, par, λ x. ground arith)
  add_all-member tree s ((f, t) ∷ ps) h v par (out, once, more) =
      let (tree', s', g, run, v', par', same, inside, _) = add-member tree s f t h v par out in
      let (tree'', s'', g', run', v'', par'', same') =
        add_all-member tree' s' ps g v' par' (IsFresh-added s s' f ps inside once more) in
      (
        tree'',
        s'',
        g',
        rw run run',
        v'',
        par'',
        λ x.
            same' x
            ∙ rw (same x) (or_assoc (member (items s) x) (eq t x) (member (map (λ p. p.1) ps) x)),
      )

  new_tree-IsTree : (memory : Ptr) (h : Heap A) → IsTree h (new_tree memory) leaf
  unfolding new_tree
  new_tree-IsTree memory h = record {
    root = λ e. ground arith;
    size = refl;
    holds = tt;
    distinct = tt;
    ordered = tt;
  }

  -- What a new tree holds after a sequence of additions, by its `search` and its `travPrint`.
  abbrev pub Session : Ptr → List (ℕ × A) → Heap A → Type ℓ
  Session memory ps h =
      (tree : BinaryTree) × (s : Shape A) × (g : Heap A) × (add_all (new_tree memory) ps h
        ≡ ok tree g)
      × IsTree g tree s
      × HasParents none s
      × ((t : A)
          → (n : ℕ) × (search tree t g ≡ ok (member (map (λ p. p.1) ps) t, n) g) × (n ≤ tree.size))
      × ((tree.size == 0) ≡ false → trav_print tree g ≡ ok (items s) g)

  -- A new tree to which items are added, at addresses that differ, is a search tree with true parent
  -- pointers whatever its root was at first, and `search` then finds the items that were added and no
  -- others, and looks at no more nodes than the tree has; `travPrint` prints the items of the search
  -- tree from left to right, where something was added.
  pub add_all-search :
      (memory : Ptr) (ps : List (ℕ × A)) (h : Heap A) → IsFresh leaf ps → Session memory ps h
  add_all-search memory ps h fresh =
      let (tree, s, g, run, v, par, same) =
        add_all-member (new_tree memory) leaf ps h (new_tree-IsTree memory h) tt fresh in
      (
        tree,
        s,
        g,
        run,
        v,
        par,
        (λ t.
            let (found, low) = search-member g tree s t v in
            (
              steps s t,
              found ∙ ap (λ b. ok (b, steps s t) g) (same t),
              omega (arith, low, height-count s, v.size),
            )),
        (λ e. trav_print-items g tree s v (v.root e)),
      )
