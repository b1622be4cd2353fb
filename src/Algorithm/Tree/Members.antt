-- ===== src/Algorithm/Tree/Members.antt =====
-- The items of a search tree of algorithm/tree.hpp, as a list.
use cpp_prac.Prelude.{Bool, false, ◌||◌, List, [], ◌∷◌, ◌++◌, ◌≡◌, refl, arith}
use cpp_prac.Prelude.Order.{Order, lt, eq}
use cpp_prac.Algorithm.Tree.Shapes.{Shape, leaf, node, items, IsBelow, IsOver, IsOrdered, contains}

module _ {ℓ} {A : Type ℓ} ⦃o : Order A⦄ where
  -- Whether an item is in a list.
  abbrev pub member : List A → A → Bool
  member [] t = false
  member (x ∷ xs) t = eq x t || member xs t

  member-append : (xs ys : List A) (t : A) → member (xs ++ ys) t ≡ (member xs t || member ys t)
  member-append [] ys t = refl
  member-append (x ∷ xs) ys t = ground (arith, member-append xs ys t)

  member-below : (s : Shape A) (b t : A) → IsBelow b s → lt t b ≡ false → member (items s) t ≡ false
  member-below leaf b t below h = refl
  member-below (node l a x q r) b t (low, here, high) h = ground (
    arith,
    member-append (items l) (x ∷ items r) t,
    member-below l b t low h,
    member-below r b t high h,
    o.connected x t,
  )

  member-over : (s : Shape A) (b t : A) → IsOver b s → lt b t ≡ false → member (items s) t ≡ false
  member-over leaf b t over h = refl
  member-over (node l a x q r) b t (low, here, high) h = ground (
    arith,
    member-append (items l) (x ∷ items r) t,
    member-over l b t low h,
    member-over r b t high h,
    o.connected x t,
  )

  pub contains-items : (s : Shape A) (t : A) → IsOrdered s → contains s t ≡ member (items s) t
  unfolding contains
  contains-items leaf t v = refl
  contains-items (node l a x q r) t (below, over, ord_l, ord_r) = ground (
    arith,
    member-append (items l) (x ∷ items r) t,
    contains-items l t ord_l,
    contains-items r t ord_r,
    member-below l x t below,
    member-over r x t over,
    o.connected x t,
    o.trans x t x,
    o.irrefl x,
  )
