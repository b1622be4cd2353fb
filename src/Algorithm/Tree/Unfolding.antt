-- ===== src/Algorithm/Tree/Unfolding.antt =====
-- The ways down a search tree of algorithm/tree.hpp.
use cpp_prac.Prelude.{ℕ, true, false, some, ◌≡◌, refl, arith}
use mathlib.Core.Option
use cpp_prac.Prelude.Order.{Order, lt, gt}
use cpp_prac.Algorithm.Tree.Nodes.{Ptr}
use cpp_prac.Algorithm.Tree.Shapes.{Shape, node, contains}
use cpp_prac.Algorithm.Tree.Removal.{without_root, remove}

module _ {ℓ} {A : Type ℓ} ⦃o : Order A⦄ where
  module _ (l : Shape A) (a : ℕ) (x : A) (q : Ptr) (r : Shape A) (p : Ptr) (t : A) where
    pub remove_here :
        gt t x ≡ false → lt t x ≡ false → remove (node l a x q r) p t ≡ without_root l a p r
    unfolding remove
    remove_here no_gt no_lt = ground arith

    pub remove_right :
        gt t x ≡ true
        → remove (node l a x q r) p t ≡ Option.map (λ s. node l a x q s) (remove r (some a) t)
    unfolding remove
    remove_right is_gt = ground arith

    pub remove_left :
        gt t x ≡ false
        → lt t x ≡ true
        → remove (node l a x q r) p t ≡ Option.map (λ s. node s a x q r) (remove l (some a) t)
    unfolding remove
    remove_left no_gt is_lt = ground (arith, o.irrefl x)

    pub contains_here : gt t x ≡ false → lt t x ≡ false → contains (node l a x q r) t ≡ true
    unfolding contains
    contains_here no_gt no_lt = rw (no_gt, no_lt) refl

    pub contains_right : gt t x ≡ true → contains (node l a x q r) t ≡ contains r t
    unfolding contains
    contains_right is_gt = rw is_gt refl

    pub contains_left : gt t x ≡ false → lt t x ≡ true → contains (node l a x q r) t ≡ contains l t
    unfolding contains
    contains_left no_gt is_lt = rw (no_gt, is_lt) refl
