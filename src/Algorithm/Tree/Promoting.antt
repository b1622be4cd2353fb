-- ===== src/Algorithm/Tree/Promoting.antt =====
-- How `del` of algorithm/tree.hpp takes out a node with two children.
use cpp_prac.Prelude.{ℕ, true, false, Option, none, some, ◌==◌, ◌≡◌, ◌≢◌, refl, sym, ap, ◌∙◌}
use cpp_prac.Prelude.Order.{Order}
use cpp_prac.Algorithm.Tree.{BinaryTree, take_place, replace_other}
use cpp_prac.Algorithm.Tree.Nodes.{Ptr, Node, node_of, Heap, write, ok, update-ok}
use cpp_prac.Algorithm.Tree.Shapes.{Shape, has}
use cpp_prac.Algorithm.Tree.Slots.{
  Slot, root_slot, left_slot, right_slot, owner, owns, PointsTo, IsOutside, replace_other-PointsTo,
  IsOutside-owns, owns_ne, PointsTo-frame,
}
use cpp_prac.Algorithm.Tree.Unlinking.{delete-ok, write-other}
use cpp_prac.Algorithm.Tree.Handing.{write-here}

module _ {ℓ} {A : Type ℓ} ⦃o : Order A⦄ where
  -- `m` takes the place of `a` in a slot.
  abbrev pub TakesPlace : Slot A → ℕ → ℕ → A → Ptr → Ptr → BinaryTree → Heap A → Type ℓ
  TakesPlace slot a m w l r tree h =
      (tree' : BinaryTree) × (g : Heap A) × (take_place tree (some a) (some m) (owner slot) h
        ≡ ok tree' g)
      × PointsTo slot tree' g (some m)
      × (tree'.size ≡ tree.size)
      × (owner slot ≢ none → tree' ≡ tree)
      × (g m ≡ some (node_of w (owner slot) l r))
      × ((b : ℕ) → owns b slot ≡ false → (b == m) ≡ false → (b == a) ≡ false → g b ≡ h b)

  take_place_run :
      (tree : BinaryTree) (h g : Heap A) (a m p : ℕ) (w : A) (u l r : Ptr) (n : Node A)
      → replace_other (some p) (some a) (some m) h ≡ ok tt g
      → g m ≡ some (node_of w u l r)
      → write g m (some (node_of w (some p) l r)) a ≡ some n
      → take_place tree (some a) (some m) (some p) h
        ≡ ok tree (write (write g m (some (node_of w (some p) l r))) a none)
  unfolding take_place
  take_place_run tree h g a m p w u l r n run target here =
      rw
        (
          run,
          update-ok g m (node_of w u l r) (λ n. record n { parent = some p }) target,
          delete-ok (write g m (some (node_of w (some p) l r))) a n here,
        )
        refl

  place_root :
      (tree : BinaryTree) (h : Heap A) (a m : ℕ) (w : A) (u l r : Ptr) (n : Node A)
      → h m ≡ some (node_of w u l r)
      → write h m (some (node_of w none l r)) a ≡ some n
      → take_place tree (some a) (some m) none h
        ≡ ok (record tree { root = some m }) (write (write h m (some (node_of w none l r))) a none)
  unfolding take_place
  place_root tree h a m w u l r n target here =
      rw
        (
          update-ok h m (node_of w u l r) (λ n. record n { parent = none }) target,
          delete-ok (write h m (some (node_of w none l r))) a n here,
        )
        refl

  place_child :
      (slot : Slot A) (s : Shape A) (a m p : ℕ) (w : A) (u l r : Ptr) (n : Node A)
      (tree : BinaryTree) (h : Heap A)
      → owner slot ≡ some p
      → h a ≡ some n
      → h m ≡ some (node_of w u l r)
      → has a s ≡ true
      → has m s ≡ true
      → (a == m) ≡ false
      → (m == a) ≡ false
      → PointsTo slot tree h (some a)
      → IsOutside slot s
      → TakesPlace slot a m w l r tree h
  place_child slot s a m p w u l r n tree h e here target i_a i_m ne ne' at out =
      let own_a : owns a slot ≡ false = IsOutside-owns slot s a out i_a in
      let own_m : owns m slot ≡ false = IsOutside-owns slot s m out i_m in
      let (g, run, at', same) = replace_other-PointsTo slot tree h s a p (some m) e at out i_a in
      let run' : replace_other (some p) (some a) (some m) h ≡ ok tt g =
        ap (λ v. replace_other v (some a) (some m) h) (sym e) ∙ run in
      let c : Option (Node A) = some (node_of w (some p) l r) in
      let target' : g m ≡ some (node_of w u l r) = same m own_m ∙ target in
      let here' : write g m c a ≡ some n = write-other g m a c ne ∙ same a own_a ∙ here in
      (
        tree,
        write (write g m c) a none,
        ap (λ v. take_place tree (some a) (some m) v h) e
            ∙ take_place_run tree h g a m p w u l r n run' target' here',
        PointsTo-frame slot tree g (write (write g m c) a none) (some m)
            (λ b own.
              write-other (write g m c) a b none (owns_ne slot a b own own_a)
              ∙ write-other g m b c (owns_ne slot m b own own_m))
            at',
        refl,
        (λ _. refl),
        write-other (write g m c) a m none ne'
            ∙ write-here g m c
            ∙ ap (λ v. some (node_of w v l r)) (sym e),
        λ b own n_m n_a.
            write-other (write g m c) a b none n_a ∙ write-other g m b c n_m ∙ same b own,
      )

  pub take_place-PointsTo :
      (slot : Slot A) (s : Shape A) (a m : ℕ) (w : A) (u l r : Ptr) (n : Node A) (tree : BinaryTree)
      (h : Heap A)
      → h a ≡ some n
      → h m ≡ some (node_of w u l r)
      → has a s ≡ true
      → has m s ≡ true
      → (a == m) ≡ false
      → (m == a) ≡ false
      → PointsTo slot tree h (some a)
      → IsOutside slot s
      → TakesPlace slot a m w l r tree h
  take_place-PointsTo root_slot s a m w u l r n tree h here target i_a i_m ne ne' at out =
      let c : Option (Node A) = some (node_of w none l r) in
      (
        record tree { root = some m },
        write (write h m c) a none,
        place_root tree h a m w u l r n target (write-other h m a c ne ∙ here),
        record { lower = refl },
        refl,
        (λ ne. absurd (ne refl)),
        write-other (write h m c) a m none ne' ∙ write-here h m c,
        λ b own n_m n_a. write-other (write h m c) a b none n_a ∙ write-other h m b c n_m,
      )
  take_place-PointsTo (left_slot d y v z) s a m w u l r n tree h here target i_a i_m ne ne' at out =
      place_child (left_slot d y v z) s a m d w u l r n tree h refl here target i_a i_m ne ne' at
        out
  take_place-PointsTo (right_slot d y v z) s a m w u l r n tree h here target i_a i_m ne ne' at
        out =
      place_child (right_slot d y v z) s a m d w u l r n tree h refl here target i_a i_m ne ne' at
        out
