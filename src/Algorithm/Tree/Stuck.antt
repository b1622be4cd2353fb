-- ===== src/Algorithm/Tree/Stuck.antt =====
-- Where `del` of algorithm/tree.hpp follows a null pointer.
use cpp_prac.Prelude.{
  ℕ, suc, Bool, true, false, not, ◌&&◌, Option, none, some, ◌==◌, if◌then◌else◌, ◌≡◌, refl, ◌∙◌,
  inl, inr, Bool-cases, arith,
}
use mathlib.Core.Option
use cpp_prac.Prelude.Order.{Order, lt, gt}
use cpp_prac.Algorithm.Tree.Nodes.{Ptr}
use cpp_prac.Algorithm.Tree.Shapes.{Shape, leaf, node, count}
use cpp_prac.Algorithm.Tree.Removal.{pop_min, promote, without_root, remove}
use cpp_prac.Algorithm.Tree.Unfolding.{remove_here, remove_right, remove_left}
use cpp_prac.Algorithm.Tree.Removing.{count-pop_min}

abbrev pub is_none {ℓ} : {B : Type ℓ} → Option B → Bool
is_none none = true
is_none (some b) = false

is_none-map {ℓ} : {B : Type ℓ} (f : B → B) (r : Option B) → is_none (Option.map f r) ≡ is_none r
is_none-map f none = refl
is_none-map f (some b) = refl

module _ {ℓ} {A : Type ℓ} where
  is_none-promote :
      (p : Ptr) (l : Shape A) (m : ℕ) (w : A) (rest : Shape A)
      → is_none (promote p l m w rest) ≡ (suc (count rest) == 1)
  is_none-promote p l m w leaf = ground arith
  is_none-promote p l m w (node sl d y u sr) = ground arith

  is_none-without_root :
      (l : Shape A) (a : ℕ) (p : Ptr) (r : Shape A)
      → is_none (without_root l a p r) ≡ (not (count l == 0) && (count r == 1))
  unfolding without_root
  is_none-without_root leaf a p leaf = refl
  is_none-without_root leaf a p (node rl b y q rr) = refl
  is_none-without_root (node ll b y q lr) a p leaf = ground arith
  is_none-without_root (node ll b y q lr) a p (node rl c z s rr) =
      let (m, w, _, _, rest) = pop_min rl c z s rr in
      is_none-promote p (node ll b y q lr) m w rest ∙ ground (arith, count-pop_min rl c z s rr)

module _ {ℓ} {A : Type ℓ} ⦃o : Order A⦄ where
  -- The item stands in a node with two children of which the right one has no child.
  unfoldable pub is_stuck : Shape A → A → Bool
  is_stuck leaf t = false
  is_stuck (node l a x q r) t =
      if gt t x
      then is_stuck r t
      else if lt t x
      then is_stuck l t
      else not (count l == 0) && (count r == 1)

  pub is_none-remove : (s : Shape A) (p : Ptr) (t : A) → is_none (remove s p t) ≡ is_stuck s t
  unfolding remove is_stuck
  is_none-remove leaf p t = refl
  is_none-remove (node l a x q r) p t = elim (Bool-cases (gt t x)) [
    | inl is_gt ↦
        rw (remove_right l a x q r p t is_gt, is_gt)
          (is_none-map (λ s. node l a x q s) (remove r (some a) t) ∙ is_none-remove r (some a) t)
    | inr no_gt ↦ elim (Bool-cases (lt t x)) [
      | inl is_lt ↦
          rw (remove_left l a x q r p t no_gt is_lt, no_gt, is_lt)
            (is_none-map (λ s. node s a x q r) (remove l (some a) t) ∙ is_none-remove l (some a) t)
      | inr no_lt ↦
          rw (remove_here l a x q r p t no_gt no_lt, no_gt, no_lt) (is_none-without_root l a p r)
    ]
  ]
