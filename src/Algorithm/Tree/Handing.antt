-- ===== src/Algorithm/Tree/Handing.antt =====
-- How `del` of algorithm/tree.hpp hands the children of a node over to the node that takes its place.
use cpp_prac.Prelude.{ℕ, false, Option, none, some, ◌==◌, ◌≡◌, ◌≢◌, refl, sym, ◌∙◌, arith}
use cpp_prac.Prelude.Order.{Order}
use cpp_prac.Algorithm.Tree.{hand_over}
use cpp_prac.Algorithm.Tree.Nodes.{
  Ptr, Node, node_of, Heap, write, ok, fault, update, set_parent, load-ok, update-ok,
}
use cpp_prac.Algorithm.Tree.Shapes.{
  Shape, leaf, ptr, has, Holds, IsApart, IsDistinct, Holds-frame, Holds-write, reparent,
}
use cpp_prac.Algorithm.Tree.Slots.{set_parent-reparent, has-reparent}
use cpp_prac.Algorithm.Tree.Unlinking.{write-other}

module _ {ℓ} {A : Type ℓ} where
  -- The removed node `a`, the node `m` for its place and the two subtrees have no address in common.
  pub record IsLoose (a m : ℕ) (l r : Shape A) : Type 0 where
    pub a_left : has a l ≡ false
    pub a_right : has a r ≡ false
    pub m_left : has m l ≡ false
    pub m_right : has m r ≡ false
    pub ne : (a == m) ≡ false
    pub apart : IsApart l r
    pub left : IsDistinct l
    pub right : IsDistinct r

  IsApart-sym : (l r : Shape A) → IsApart l r → IsApart r l
  IsApart-sym l r apart b i = ground (arith, apart b)

  pub write-here : (h : Heap A) (a : ℕ) (c : Option (Node A)) → write h a c a ≡ c
  write-here h a c = ground arith

module _ {ℓ} {A : Type ℓ} ⦃o : Order A⦄ where
  hand_over_run :
      (g g' g'' : Heap A) (a m : ℕ) (x w : A) (q u e pl pr : Ptr)
      → g a ≡ some (node_of x q pl pr)
      → g m ≡ some (node_of w u none e)
      → set_parent pl (some m) (write g m (some (node_of w u pl e))) ≡ ok tt g'
      → g' a ≡ some (node_of x q pl pr)
      → g' m ≡ some (node_of w u pl e)
      → set_parent pr (some m) (write g' m (some (node_of w u pl pr))) ≡ ok tt g''
      → hand_over (some a) (some m) g ≡ ok tt g''
  unfolding hand_over
  hand_over_run g g' g'' a m x w q u e pl pr here target run here' target' run' =
      rw
        (
          load-ok g a (node_of x q pl pr) here,
          update-ok g m (node_of w u none e) (λ n. record n { left = pl }) target,
          run,
          load-ok g' a (node_of x q pl pr) here',
          update-ok g' m (node_of w u pl e) (λ n. record n { right = pr }) target',
        )
        run'

  -- The left subtree changes hands.
  abbrev pub LeftHanded : ℕ → ℕ → Shape A → Shape A → A → A → Ptr → Ptr → Ptr → Heap A → Type ℓ
  LeftHanded a m l r x w q u e g =
      (g' : Heap A) × (set_parent (ptr l) (some m) (write g m (some (node_of w u (ptr l) e)))
        ≡ ok tt g')
      × Holds g' (reparent l (some m))
      × Holds g' r
      × (g' a ≡ some (node_of x q (ptr l) (ptr r)))
      × (g' m ≡ some (node_of w u (ptr l) e))
      × ((b : ℕ) → has b l ≡ false → (b == m) ≡ false → g' b ≡ g b)

  left_handed :
      (g : Heap A) (a m : ℕ) (l r : Shape A) (x w : A) (q u e : Ptr)
      → IsLoose a m l r
      → ptr l ≢ none
      → Holds g l
      → Holds g r
      → g a ≡ some (node_of x q (ptr l) (ptr r))
      → LeftHanded a m l r x w q u e g
  left_handed g a m l r x w q u e v ne hl hr here =
      let c : Option (Node A) = some (node_of w u (ptr l) e) in
      let (g', run, hl', same) =
        set_parent-reparent (write g m c) l (some m) ne (Holds-write g l m c v.m_left hl) v.left in
      (
        g',
        run,
        hl',
        Holds-frame g' (write g m c) r (λ b i. same b (IsApart-sym l r v.apart b i))
            (Holds-write g r m c v.m_right hr),
        same a v.a_left ∙ write-other g m a c v.ne ∙ here,
        same m v.m_left ∙ write-here g m c,
        λ b i n. same b i ∙ write-other g m b c n,
      )

  -- `hand_over`, where the right subtree has a node.
  abbrev pub HandsOver : ℕ → ℕ → Shape A → Shape A → A → A → Ptr → Ptr → Heap A → Type ℓ
  HandsOver a m l r x w q u g =
      (g' : Heap A) × (hand_over (some a) (some m) g ≡ ok tt g')
      × Holds g' (reparent l (some m))
      × Holds g' (reparent r (some m))
      × (g' a ≡ some (node_of x q (ptr l) (ptr r)))
      × (g' m ≡ some (node_of w u (ptr l) (ptr r)))
      × ((b : ℕ) → has b l ≡ false → has b r ≡ false → (b == m) ≡ false → g' b ≡ g b)

  pub hand_over-Holds :
      (g : Heap A) (a m : ℕ) (l r : Shape A) (x w : A) (q u e : Ptr)
      → IsLoose a m l r
      → ptr l ≢ none
      → ptr r ≢ none
      → Holds g l
      → Holds g r
      → g a ≡ some (node_of x q (ptr l) (ptr r))
      → g m ≡ some (node_of w u none e)
      → HandsOver a m l r x w q u g
  hand_over-Holds g a m l r x w q u e v ne ne' hl hr here target =
      let (g', run, hl', hr', here', target', same) =
        left_handed g a m l r x w q u e v ne hl hr here in
      let c : Option (Node A) = some (node_of w u (ptr l) (ptr r)) in
      let miss : has m (reparent l (some m)) ≡ false = has-reparent m l (some m) ∙ v.m_left in
      let (g'', run', hr'', same') =
        set_parent-reparent (write g' m c) r (some m) ne' (Holds-write g' r m c v.m_right hr')
          v.right in
      (
        g'',
        hand_over_run g g' g'' a m x w q u e (ptr l) (ptr r) here target run here' target' run',
        Holds-frame g'' (write g' m c) (reparent l (some m))
            (λ b i. same' b (v.apart b (sym (has-reparent b l (some m)) ∙ i)))
            (Holds-write g' (reparent l (some m)) m c miss hl'),
        hr'',
        same' a v.a_right ∙ write-other g' m a c v.ne ∙ here',
        same' m v.m_right ∙ write-here g' m c,
        λ b i i' n. same' b i' ∙ write-other g' m b c n ∙ same b i n,
      )

  -- Where nothing is left of the right subtree its null pointer is followed.
  pub hand_over-fault :
      (g : Heap A) (a m : ℕ) (l : Shape A) (x w : A) (q u e : Ptr)
      → IsLoose a m l leaf
      → ptr l ≢ none
      → Holds g l
      → g a ≡ some (node_of x q (ptr l) none)
      → g m ≡ some (node_of w u none e)
      → hand_over (some a) (some m) g ≡ fault
  unfolding hand_over update
  hand_over-fault g a m l x w q u e v ne hl here target =
      let (g', run, _, _, here', target', _) = left_handed g a m l leaf x w q u e v ne hl tt here in
      rw
        (
          load-ok g a (node_of x q (ptr l) none) here,
          update-ok g m (node_of w u none e) (λ n. record n { left = ptr l }) target,
          run,
          load-ok g' a (node_of x q (ptr l) none) here',
          update-ok g' m (node_of w u (ptr l) e) (λ n. record n { right = none }) target',
        )
        refl
