-- ===== src/Algorithm/Tree/Visiting.antt =====
-- `search` and `travPrint` of algorithm/tree.hpp.
use cpp_prac.Prelude.{
  ℕ, zero, suc, ◌+◌, ◌≤◌, true, false, none, some, ◌==◌, if◌then◌else◌, ◌≡◌, ◌≢◌, refl, ap, ◌∙◌,
  inl, inr, Bool-cases, arith,
}
use cpp_prac.Prelude.Order.{Order, lt, gt}
use cpp_prac.Algorithm.Tree.{BinaryTree, search_loop, search, print, trav_print}
use cpp_prac.Algorithm.Tree.Nodes.{Ptr, node_of, Heap, ok, load-ok}
use cpp_prac.Algorithm.Tree.Shapes.{
  Shape, leaf, node, ptr, items, height, height-count, max-bounds, Holds, contains, IsTree,
}
use cpp_prac.Algorithm.Tree.Members.{member, contains-items}

module _ {ℓ} {A : Type ℓ} ⦃o : Order A⦄ where
  -- The nodes that a search looks at.
  unfoldable pub steps : Shape A → A → ℕ
  steps leaf t = 0
  steps (node l a x q r) t = if gt t x then steps r t + 1 else if lt t x then steps l t + 1 else 1

  steps-height : (s : Shape A) (t : A) → steps s t ≤ height s
  unfolding steps
  steps-height leaf t = omega arith
  steps-height (node l a x q r) t = ground (arith, steps-height l t, steps-height r t)

  abbrev Searches : ℕ → Shape A → A → ℕ → Heap A → Type ℓ
  Searches k s t c h = search_loop k t c (ptr s) h ≡ ok (contains s t, c + steps s t) h

  -- The two ways down.
  module _ (k : ℕ) (h : Heap A) (l : Shape A) (a : ℕ) (x : A) (q : Ptr) (r : Shape A) (t : A)
      (c : ℕ) (m : Holds h (node l a x q r)) where
    down_right :
        gt t x ≡ true
        → (b : ℕ) → ptr r ≡ some b
        → search_loop (suc k) t c (some a) h ≡ search_loop k t (c + 1) (some b) h
    unfolding search_loop
    down_right is_gt b e = ground (arith, load-ok h a (node_of x q (ptr l) (ptr r)) m.0)

    down_left :
        gt t x ≡ false
        → lt t x ≡ true
        → (b : ℕ) → ptr l ≡ some b
        → search_loop (suc k) t c (some a) h ≡ search_loop k t (c + 1) (some b) h
    unfolding search_loop
    down_left no_gt is_lt b e = ground (arith, load-ok h a (node_of x q (ptr l) (ptr r)) m.0)

    search_here : gt t x ≡ false → lt t x ≡ false → Searches (suc k) (node l a x q r) t c h
    unfolding search_loop contains steps
    search_here no_gt no_lt = ground (arith, load-ok h a (node_of x q (ptr l) (ptr r)) m.0)

    stop_right : gt t x ≡ true → r ≡ leaf → Searches (suc k) (node l a x q r) t c h
    unfolding search_loop contains steps
    stop_right is_gt e = ground (
      arith,
      load-ok h a (node_of x q (ptr l) (ptr r)) m.0,
      ap ptr e,
      ap (λ s. contains s t) e,
      ap (λ s. steps s t) e,
    )

    stop_left : gt t x ≡ false → lt t x ≡ true → l ≡ leaf → Searches (suc k) (node l a x q r) t c h
    unfolding search_loop contains steps
    stop_left no_gt is_lt e = ground (
      arith,
      load-ok h a (node_of x q (ptr l) (ptr r)) m.0,
      ap ptr e,
      ap (λ s. contains s t) e,
      ap (λ s. steps s t) e,
    )

  contains_right :
      (l r : Shape A) (a : ℕ) (x t : A) (q : Ptr)
      → gt t x ≡ true
      → (contains (node l a x q r) t ≡ contains r t) × (steps (node l a x q r) t ≡ steps r t + 1)
  unfolding contains steps
  contains_right l r a x t q is_gt = ground arith

  contains_left :
      (l r : Shape A) (a : ℕ) (x t : A) (q : Ptr)
      → gt t x ≡ false
      → lt t x ≡ true
      → (contains (node l a x q r) t ≡ contains l t) × (steps (node l a x q r) t ≡ steps l t + 1)
  unfolding contains steps
  contains_left l r a x t q no_gt is_lt = ground arith

  search_right :
      (k : ℕ) (h : Heap A) (l : Shape A) (a : ℕ) (x : A) (q : Ptr) (r : Shape A) (t : A) (c : ℕ)
      → Holds h (node l a x q r)
      → gt t x ≡ true
      → (ptr r ≢ none → Searches k r t (c + 1) h)
      → Searches (suc k) (node l a x q r) t c h
  search_right k h l a x q leaf t c m is_gt ih = stop_right k h l a x q leaf t c m is_gt refl
  search_right k h l a x q (node l' a' x' q' r') t c m is_gt ih =
      let (e, e') = contains_right l (node l' a' x' q' r') a x t q is_gt in
      down_right k h l a x q (node l' a' x' q' r') t c m is_gt a' refl
      ∙ ih (λ e. ground arith)
      ∙ rw (e, e') (ap (λ n. ok (contains (node l' a' x' q' r') t, n) h) (omega arith))

  search_left :
      (k : ℕ) (h : Heap A) (l : Shape A) (a : ℕ) (x : A) (q : Ptr) (r : Shape A) (t : A) (c : ℕ)
      → Holds h (node l a x q r)
      → gt t x ≡ false
      → lt t x ≡ true
      → (ptr l ≢ none → Searches k l t (c + 1) h)
      → Searches (suc k) (node l a x q r) t c h
  search_left k h leaf a x q r t c m no_gt is_lt ih =
      stop_left k h leaf a x q r t c m no_gt is_lt refl
  search_left k h (node l' a' x' q' r') a x q r t c m no_gt is_lt ih =
      let (e, e') = contains_left (node l' a' x' q' r') r a x t q no_gt is_lt in
      down_left k h (node l' a' x' q' r') a x q r t c m no_gt is_lt a' refl
      ∙ ih (λ e. ground arith)
      ∙ rw (e, e') (ap (λ n. ok (contains (node l' a' x' q' r') t, n) h) (omega arith))

  search_loop-contains :
      (k : ℕ) (h : Heap A) (s : Shape A) (t : A) (c : ℕ)
      → ptr s ≢ none
      → height s ≤ k
      → Holds h s
      → Searches k s t c h
  search_loop-contains k h leaf t c some_node high m = absurd (some_node refl)
  search_loop-contains zero h (node l a x q r) t c some_node high m = absurd (ground arith)
  search_loop-contains (suc k) h (node l a x q r) t c some_node high m =
      let (low_l, low_r) = max-bounds (height l) (height r) k high in
      elim (Bool-cases (gt t x)) [
        | inl is_gt ↦
            search_right k h l a x q r t c m is_gt
              (λ ne. search_loop-contains k h r t (c + 1) ne low_r m.2)
        | inr no_gt ↦ elim (Bool-cases (lt t x)) [
          | inl is_lt ↦
              search_left k h l a x q r t c m no_gt is_lt
                (λ ne. search_loop-contains k h l t (c + 1) ne low_l m.1)
          | inr no_lt ↦ search_here k h l a x q r t c m no_gt no_lt
        ]
      ]

  print-items :
      (k : ℕ) (h : Heap A) (s : Shape A)
      → height s ≤ k
      → Holds h s
      → print k (ptr s) h ≡ ok (items s) h
  unfolding print
  print-items k h leaf high m = refl
  print-items zero h (node l a x q r) high m = absurd (ground arith)
  print-items (suc k) h (node l a x q r) high m =
      let (low_l, low_r) = max-bounds (height l) (height r) k high in
      rw
        (
          load-ok h a (node_of x q (ptr l) (ptr r)) m.0,
          print-items k h l low_l m.1,
          print-items k h r low_r m.2,
        )
        refl

  search-run :
      (h : Heap A) (tree : BinaryTree) (s : Shape A) (t : A)
      → IsTree h tree s
      → search tree t h ≡ ok (contains s t, steps s t) h
  unfolding search contains steps
  search-run h tree leaf t v = ground (arith, v.size)
  search-run h tree (node l a x q r) t v =
      let size : (tree.size == 0) ≡ false = ground (arith, v.size) in
      rw (size, v.root size)
        (search_loop-contains tree.size h (node l a x q r) t 0 (λ e. ground arith)
            (omega (arith, height-count (node l a x q r), v.size)) v.holds
          ∙ ap (λ n. ok (contains (node l a x q r) t, n) h) (omega arith))

  -- On a search tree `search` returns whether the item is in it, the count that it prints is at
  -- most the height of the tree, and the heap stays as it is.
  pub search-member :
      (h : Heap A) (tree : BinaryTree) (s : Shape A) (t : A)
      → IsTree h tree s
      → (search tree t h ≡ ok (member (items s) t, steps s t) h) × (steps s t ≤ height s)
  search-member h tree s t v = (
    search-run h tree s t v ∙ ap (λ b. ok (b, steps s t) h) (contains-items s t v.ordered),
    steps-height s t,
  )

  pub trav_print-items :
      (h : Heap A) (tree : BinaryTree) (s : Shape A)
      → IsTree h tree s
      → tree.root ≡ ptr s
      → trav_print tree h ≡ ok (items s) h
  unfolding trav_print
  trav_print-items h tree s v e =
      rw e (print-items (tree.size + 1) h s (omega (arith, height-count s, v.size)) v.holds)
