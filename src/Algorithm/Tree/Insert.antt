-- ===== src/Algorithm/Tree/Insert.antt =====
-- Insertion into a search tree, which `add` of algorithm/tree.hpp carries out.
use cpp_prac.Prelude.{
  ℕ, ◌+◌, true, false, not, ◌||◌, ◌&&◌, none, some, ◌==◌, if◌then◌else◌, ◌≡◌, ◌≢◌, refl, inl, inr,
  Bool-cases, arith,
}
use cpp_prac.Prelude.Order.{Order, lt, gt, eq}
use cpp_prac.Algorithm.Tree.Nodes.{Ptr}
use cpp_prac.Algorithm.Tree.Shapes.{
  Shape, leaf, node, ptr, has, count, IsDistinct, HasParents, All, IsOrdered, contains,
}

module _ {ℓ} {A : Type ℓ} ⦃o : Order A⦄ where
  -- `t` at the address `f` below the parent `p`, if it is not there yet.
  unfoldable pub insert : Shape A → Ptr → ℕ → A → Shape A
  insert leaf p f t = node leaf f t p leaf
  insert (node l a x q r) p f t =
      if gt t x
      then node l a x q (insert r (some a) f t)
      else if lt t x
      then node (insert l (some a) f t) a x q r
      else node l a x q r

  pub has-insert :
      (s : Shape A) (p : Ptr) (f : ℕ) (t : A) (b : ℕ)
      → has b (insert s p f t) ≡ (has b s || (b == f) && not (contains s t))
  unfolding insert contains
  has-insert leaf p f t b = ground arith
  has-insert (node l a x q r) p f t b =
      ground (arith, has-insert l (some a) f t b, has-insert r (some a) f t b)

  -- The two ways down, for the model and for the code.
  pub insert_right :
      (l r : Shape A) (a f : ℕ) (x t : A) (q p : Ptr)
      → gt t x ≡ true
      → insert (node l a x q r) p f t ≡ node l a x q (insert r (some a) f t)
  unfolding insert
  insert_right l r a f x t q p is_gt = rw is_gt refl

  pub insert_left :
      (l r : Shape A) (a f : ℕ) (x t : A) (q p : Ptr)
      → gt t x ≡ false
      → lt t x ≡ true
      → insert (node l a x q r) p f t ≡ node (insert l (some a) f t) a x q r
  unfolding insert
  insert_left l r a f x t q p no_gt is_lt = rw (no_gt, is_lt) refl

  pub ptr-insert :
      (s : Shape A) (p : Ptr) (f : ℕ) (t : A) (a : ℕ)
      → ptr s ≡ some a
      → ptr (insert s p f t) ≡ some a
  unfolding insert
  ptr-insert leaf p f t a h = ground arith
  ptr-insert (node l b x q r) p f t a h = ground arith

  pub insert-IsDistinct :
      (s : Shape A) (p : Ptr) (f : ℕ) (t : A)
      → has f s ≡ false
      → IsDistinct s
      → IsDistinct (insert s p f t)
  unfolding insert
  insert-IsDistinct leaf p f t fresh d = (refl, refl, (λ b i. refl), tt, tt)
  insert-IsDistinct (node l a x q r) p f t fresh (out_l, out_r, apart, dl, dr) =
      elim (Bool-cases (gt t x)) [
        | inl is_gt ↦ rw is_gt (
          out_l,
          ground (arith, has-insert r (some a) f t a),
          (λ b i. ground (arith, apart b, has-insert r (some a) f t b)),
          dl,
          insert-IsDistinct r (some a) f t (ground arith) dr,
        )
        | inr no_gt ↦ elim (Bool-cases (lt t x)) [
          | inl is_lt ↦
              rw (no_gt, is_lt)
                (
                  ground (arith, has-insert l (some a) f t a),
                  out_r,
                  (λ b i. ground (arith, apart b, has-insert l (some a) f t b)),
                  insert-IsDistinct l (some a) f t (ground arith) dl,
                  dr,
                )
          | inr no_lt ↦ rw (no_gt, no_lt) (out_l, out_r, apart, dl, dr)
        ]
      ]

  pub insert-HasParents :
      (s : Shape A) (p : Ptr) (f : ℕ) (t : A) → HasParents p s → HasParents p (insert s p f t)
  unfolding insert
  insert-HasParents leaf p f t v = (refl, tt, tt)
  insert-HasParents (node l a x q r) p f t v =
      ground (arith, insert-HasParents l (some a) f t, insert-HasParents r (some a) f t)

  pub All-insert {κ} :
      (P : A → Type κ) (s : Shape A) (p : Ptr) (f : ℕ) (t : A)
      → P t
      → All P s
      → All P (insert s p f t)
  unfolding insert
  All-insert P leaf p f t here all = (tt, here, tt)
  All-insert P (node l a x q r) p f t here all =
      ground (arith, All-insert P l (some a) f t, All-insert P r (some a) f t)

  pub insert-IsOrdered :
      (s : Shape A) (p : Ptr) (f : ℕ) (t : A) → IsOrdered s → IsOrdered (insert s p f t)
  unfolding insert
  insert-IsOrdered leaf p f t v = (tt, tt, tt, tt)
  insert-IsOrdered (node l a x q r) p f t v = ground (
    arith,
    insert-IsOrdered l (some a) f t,
    insert-IsOrdered r (some a) f t,
    All-insert (λ y. lt y x ≡ true) l (some a) f t,
    All-insert (λ y. lt x y ≡ true) r (some a) f t,
  )

  pub count-insert :
      (s : Shape A) (p : Ptr) (f : ℕ) (t : A)
      → count (insert s p f t) ≡ (if contains s t then count s else count s + 1)
  unfolding insert contains
  count-insert leaf p f t = refl
  count-insert (node l a x q r) p f t =
      ground (arith, count-insert l (some a) f t, count-insert r (some a) f t)

  pub contains-insert :
      (s : Shape A) (p : Ptr) (f : ℕ) (t y : A)
      → contains (insert s p f t) y ≡ (contains s y || eq t y)
  unfolding insert contains
  contains-insert leaf p f t y = ground arith
  contains-insert (node l a x q r) p f t y = ground (
    arith,
    contains-insert l (some a) f t y,
    contains-insert r (some a) f t y,
    o.connected t y,
    o.connected x y,
    o.connected x t,
    o.trans x t y,
    o.trans t x y,
    o.trans x y t,
    o.trans y x t,
    o.trans y t x,
    o.trans t y x,
  )

  pub ptr-insert_node :
      (s : Shape A) (p : Ptr) (f : ℕ) (t : A) → ptr s ≢ none → ptr (insert s p f t) ≡ ptr s
  unfolding insert
  ptr-insert_node leaf p f t h = absurd (h refl)
  ptr-insert_node (node l a x q r) p f t h = ground arith
