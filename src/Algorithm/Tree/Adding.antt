-- ===== src/Algorithm/Tree/Adding.antt =====
-- The loop of `add` of algorithm/tree.hpp.
use cpp_prac.Prelude.{
  ℕ, zero, suc, ◌≤◌, true, false, not, none, some, ◌==◌, ◌≡◌, ◌≢◌, refl, ◌∙◌, inl, inr, Bool-cases,
  arith,
}
use cpp_prac.Prelude.Order.{Order, lt, gt}
use cpp_prac.Algorithm.Tree.{hang_right, hang_left, add_loop}
use cpp_prac.Algorithm.Tree.Nodes.{Ptr, node_of, Heap, write, ok, load, update, load-ok}
use cpp_prac.Algorithm.Tree.Shapes.{
  Shape, leaf, node, ptr, has, height, Holds, IsDistinct, Holds-frame, max-bounds, or_false,
  contains,
}
use cpp_prac.Algorithm.Tree.Insert.{insert, insert_left, insert_right, ptr-insert}

module _ {ℓ} {A : Type ℓ} ⦃o : Order A⦄ where
  hang_right-ok :
      (h : Heap A) (f a : ℕ) (t x : A) (q l : Ptr)
      → h a ≡ some (node_of x q l none)
      → (f == a) ≡ false
      → (g : Heap A) × (hang_right f t (some a) h ≡ ok true g)
        × (g a ≡ some (node_of x q l (some f)))
        × (g f ≡ some (node_of t (some a) none none))
        × ((b : ℕ) → (b == a) ≡ false → (b == f) ≡ false → g b ≡ h b)
  unfolding hang_right load update
  hang_right-ok h f a t x q l here ne = (
    write (write (write h f (some (node_of t none none none))) a (some (node_of x q l (some f)))) f
        (some (node_of t (some a) none none)),
    ground arith,
    ground arith,
    ground arith,
    λ b n m. ground arith,
  )

  hang_left-ok :
      (h : Heap A) (f a : ℕ) (t x : A) (q r : Ptr)
      → h a ≡ some (node_of x q none r)
      → (f == a) ≡ false
      → (g : Heap A) × (hang_left f t (some a) h ≡ ok true g)
        × (g a ≡ some (node_of x q (some f) r))
        × (g f ≡ some (node_of t (some a) none none))
        × ((b : ℕ) → (b == a) ≡ false → (b == f) ≡ false → g b ≡ h b)
  unfolding hang_left load update
  hang_left-ok h f a t x q r here ne = (
    write (write (write h f (some (node_of t none none none))) a (some (node_of x q (some f) r))) f
        (some (node_of t (some a) none none)),
    ground arith,
    ground arith,
    ground arith,
    λ b n m. ground arith,
  )

  -- How `add_loop` ends on a tree that stands at `s`.
  abbrev pub Adds : ℕ → Shape A → Ptr → ℕ → A → Heap A → Type ℓ
  Adds k s p f t h =
      (g : Heap A) × (add_loop k t f (ptr s) h ≡ ok (not (contains s t)) g)
      × Holds g (insert s p f t)
      × ((b : ℕ) → has b s ≡ false → (b == f) ≡ false → g b ≡ h b)

  module _ (k : ℕ) (h : Heap A) (l r : Shape A) (a : ℕ) (x : A) (q p : Ptr) (f : ℕ) (t : A)
      (m : Holds h (node l a x q r)) (d : IsDistinct (node l a x q r))
      (fresh : has f (node l a x q r) ≡ false) where
    loop_right :
        (c : ℕ)
        → ptr r ≡ some c
        → gt t x ≡ true
        → add_loop (suc k) t f (some a) h ≡ add_loop k t f (some c) h
    unfolding add_loop
    loop_right c e is_gt = ground (arith, load-ok h a (node_of x q (ptr l) (ptr r)) m.0)

    loop_left :
        (c : ℕ)
        → ptr l ≡ some c
        → gt t x ≡ false
        → lt t x ≡ true
        → add_loop (suc k) t f (some a) h ≡ add_loop k t f (some c) h
    unfolding add_loop
    loop_left c e no_gt is_lt = ground (arith, load-ok h a (node_of x q (ptr l) (ptr r)) m.0)

    -- A step of the loop to a subtree.
    Adds-right :
        (c : ℕ)
        → ptr r ≡ some c
        → gt t x ≡ true
        → Adds k r (some a) f t h
        → Adds (suc k) (node l a x q r) p f t h
    unfolding contains
    Adds-right c e is_gt (g, run, mr, same) = (
      g,
      loop_right c e is_gt ∙ ground (arith, run),
      rw (insert_right l r a f x t q p is_gt) (
        ground (arith, same a, ptr-insert r (some a) f t c),
        Holds-frame g h l (λ b i. same b (ground (arith, d.2 b)) (ground arith)) m.1,
        mr,
      ),
      λ b i n. same b (ground arith) n,
    )

    Adds-left :
        (c : ℕ)
        → ptr l ≡ some c
        → gt t x ≡ false
        → lt t x ≡ true
        → Adds k l (some a) f t h
        → Adds (suc k) (node l a x q r) p f t h
    unfolding contains
    Adds-left c e no_gt is_lt (g, run, ml, same) = (
      g,
      loop_left c e no_gt is_lt ∙ ground (arith, run),
      rw (insert_left l r a f x t q p no_gt is_lt) (
        ground (arith, same a, ptr-insert l (some a) f t c),
        ml,
        Holds-frame g h r (λ b i. same b (ground (arith, d.2 b)) (ground arith)) m.2,
      ),
      λ b i n. same b (ground arith) n,
    )

    Adds-found : gt t x ≡ false → lt t x ≡ false → Adds (suc k) (node l a x q r) p f t h
    unfolding add_loop insert contains
    Adds-found no_gt no_lt = (
      h,
      ground (arith, load-ok h a (node_of x q (ptr l) (ptr r)) m.0),
      rw (no_gt, no_lt) m,
      λ b i n. refl,
    )

  -- A new leaf at a free place.
  new_right :
      (k : ℕ) (h : Heap A) (l : Shape A) (a : ℕ) (x : A) (q p : Ptr) (f : ℕ) (t : A)
      → Holds h (node l a x q leaf)
      → IsDistinct (node l a x q leaf)
      → has f (node l a x q leaf) ≡ false
      → gt t x ≡ true
      → Adds (suc k) (node l a x q leaf) p f t h
  unfolding add_loop insert contains
  new_right k h l a x q p f t m d fresh is_gt =
      let (g, run, ga, gf, same) = hang_right-ok h f a t x q (ptr l) m.0 (ground arith) in
      (
        g,
        ground (arith, load-ok h a (node_of x q (ptr l) none) m.0, run),
        rw is_gt
            (ga, Holds-frame g h l (λ b i. same b (ground arith) (ground arith)) m.1, (gf, tt, tt)),
        λ b i n. same b (ground arith) n,
      )

  new_left :
      (k : ℕ) (h : Heap A) (r : Shape A) (a : ℕ) (x : A) (q p : Ptr) (f : ℕ) (t : A)
      → Holds h (node leaf a x q r)
      → IsDistinct (node leaf a x q r)
      → has f (node leaf a x q r) ≡ false
      → gt t x ≡ false
      → lt t x ≡ true
      → Adds (suc k) (node leaf a x q r) p f t h
  unfolding add_loop insert contains
  new_left k h r a x q p f t m d fresh no_gt is_lt =
      let (g, run, ga, gf, same) = hang_left-ok h f a t x q (ptr r) m.0 (ground arith) in
      (
        g,
        ground (arith, load-ok h a (node_of x q none (ptr r)) m.0, run),
        rw (no_gt, is_lt)
            (ga, (gf, tt, tt), Holds-frame g h r (λ b i. same b (ground arith) (ground arith)) m.2),
        λ b i n. same b (ground arith) n,
      )

  go_right :
      (k : ℕ) (h : Heap A) (l : Shape A) (a : ℕ) (x : A) (q p : Ptr) (r : Shape A) (f : ℕ) (t : A)
      → Holds h (node l a x q r)
      → IsDistinct (node l a x q r)
      → has f (node l a x q r) ≡ false
      → gt t x ≡ true
      → (ptr r ≢ none → Adds k r (some a) f t h)
      → Adds (suc k) (node l a x q r) p f t h
  go_right k h l a x q p leaf f t m d fresh is_gt ih = new_right k h l a x q p f t m d fresh is_gt
  go_right k h l a x q p (node l' c x' q' r') f t m d fresh is_gt ih =
      Adds-right k h l (node l' c x' q' r') a x q p f t m d fresh c refl is_gt
        (ih (λ e. ground arith))

  go_left :
      (k : ℕ) (h : Heap A) (l : Shape A) (a : ℕ) (x : A) (q p : Ptr) (r : Shape A) (f : ℕ) (t : A)
      → Holds h (node l a x q r)
      → IsDistinct (node l a x q r)
      → has f (node l a x q r) ≡ false
      → gt t x ≡ false
      → lt t x ≡ true
      → (ptr l ≢ none → Adds k l (some a) f t h)
      → Adds (suc k) (node l a x q r) p f t h
  go_left k h leaf a x q p r f t m d fresh no_gt is_lt ih =
      new_left k h r a x q p f t m d fresh no_gt is_lt
  go_left k h (node l' c x' q' r') a x q p r f t m d fresh no_gt is_lt ih =
      Adds-left k h (node l' c x' q' r') r a x q p f t m d fresh c refl no_gt is_lt
        (ih (λ e. ground arith))

  -- The loop of `add` with the fuel for the height of the tree.
  pub add_loop-insert :
      (k : ℕ) (h : Heap A) (s : Shape A) (p : Ptr) (f : ℕ) (t : A)
      → ptr s ≢ none
      → height s ≤ k
      → Holds h s
      → IsDistinct s
      → has f s ≡ false
      → Adds k s p f t h
  add_loop-insert k h leaf p f t some_node high m d fresh = absurd (some_node refl)
  add_loop-insert zero h (node l a x q r) p f t some_node high m d fresh = absurd (ground arith)
  add_loop-insert (suc k) h (node l a x q r) p f t some_node high m d fresh =
      let (low_l, low_r) = max-bounds (height l) (height r) k high in
      let (_, fresh_l, fresh_r) = or_false (f == a) (has f l) (has f r) fresh in
      elim (Bool-cases (gt t x)) [
        | inl is_gt ↦
            go_right k h l a x q p r f t m d fresh is_gt
              (λ ne. add_loop-insert k h r (some a) f t ne low_r m.2 d.4 fresh_r)
        | inr no_gt ↦ elim (Bool-cases (lt t x)) [
          | inl is_lt ↦
              go_left k h l a x q p r f t m d fresh no_gt is_lt
                (λ ne. add_loop-insert k h l (some a) f t ne low_l m.1 d.3 fresh_l)
          | inr no_lt ↦ Adds-found k h l r a x q p f t m d fresh no_gt no_lt
        ]
      ]
