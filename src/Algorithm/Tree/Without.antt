-- ===== src/Algorithm/Tree/Without.antt =====
-- What is left of a search tree of algorithm/tree.hpp after a removal.
use cpp_prac.Prelude.{
  ℕ, ◌+◌, true, false, none, some, List, [], ◌∷◌, ◌++◌, if◌then◌else◌, ◌≡◌, refl, sym, ap, ◌∙◌, inl,
  inr, Bool-cases, arith,
}
use cpp_prac.Prelude.Order.{Order, lt, gt, eq, lt-asymm}
use cpp_prac.Algorithm.Tree.Nodes.{Ptr}
use cpp_prac.Algorithm.Tree.Shapes.{
  Shape, leaf, node, items, count, All, All-imp, IsBelow, IsOver, IsOrdered, contains,
}
use cpp_prac.Algorithm.Tree.Removal.{without_root, remove}
use cpp_prac.Algorithm.Tree.Unfolding.{
  remove_here, remove_right, remove_left, contains_here, contains_right, contains_left,
}
use cpp_prac.Algorithm.Tree.Shrinking.{
  Each-both, Each, Each-map, IsShrunk, IsShrunk-refl, right-IsShrunk, left-IsShrunk,
}
use cpp_prac.Algorithm.Tree.Removing.{IsLeft, without_root-IsLeft, without_root-IsShrunk}

module _ {ℓ} {A : Type ℓ} ⦃o : Order A⦄ where
  -- A list without an item.
  abbrev pub without : List A → A → List A
  without [] t = []
  without (x ∷ xs) t = let rest = without xs t in if eq x t then rest else x ∷ rest

  without-append : (xs ys : List A) (t : A) → without (xs ++ ys) t ≡ without xs t ++ without ys t
  without-append [] ys t = refl
  without-append (x ∷ xs) ys t = ground (arith, without-append xs ys t)

  without_behind :
      (xs ys : List A) (x t : A)
      → without xs t ≡ xs
      → eq x t ≡ false
      → without (xs ++ x ∷ ys) t ≡ xs ++ x ∷ without ys t
  without_behind xs ys x t miss ne = without-append xs (x ∷ ys) t ∙ rw (miss, ne) refl

  without_before :
      (xs ys : List A) (x t : A)
      → without ys t ≡ ys
      → eq x t ≡ false
      → without (xs ++ x ∷ ys) t ≡ without xs t ++ x ∷ ys
  without_before xs ys x t miss ne = without-append xs (x ∷ ys) t ∙ rw (miss, ne) refl

  without_between :
      (xs ys : List A) (x t : A)
      → without xs t ≡ xs
      → without ys t ≡ ys
      → eq x t ≡ true
      → without (xs ++ x ∷ ys) t ≡ xs ++ ys
  without_between xs ys x t miss miss' e = without-append xs (x ∷ ys) t ∙ rw (miss, e, miss') refl

  without-items :
      (s : Shape A) (t : A) → All (λ y. eq y t ≡ false) s → without (items s) t ≡ items s
  without-items leaf t v = refl
  without-items (node l a x q r) t (low, here, high) =
      without-append (items l) (x ∷ items r) t
      ∙ rw (without-items l t low, here, without-items r t high) refl

  ne_below : (y b t : A) → lt y b ≡ true → lt t b ≡ false → eq y t ≡ false
  ne_below y b t e h = ground (arith, o.connected y t)

  ne_over : (y b t : A) → lt b y ≡ true → lt b t ≡ false → eq y t ≡ false
  ne_over y b t e h = ground (arith, o.connected y t)

  -- On the far side of a bound an item stands nowhere.
  below_ne : (s : Shape A) (b t : A) → IsBelow b s → lt t b ≡ false → All (λ y. eq y t ≡ false) s
  below_ne s b t v h = All-imp (λ y e. ne_below y b t e h) s v

  over_ne : (s : Shape A) (b t : A) → IsOver b s → lt b t ≡ false → All (λ y. eq y t ≡ false) s
  over_ne s b t v h = All-imp (λ y e. ne_over y b t e h) s v

  -- What is left in the tree after a removal.
  pub record IsWithout (t : A) (s s' : Shape A) : Type ℓ where
    pub items : items s' ≡ without (items s) t
    pub count : count s' + (if contains s t then 1 else 0) ≡ count s
    pub shrunk : IsShrunk s s'

  IsWithout-right :
      (l : Shape A) (a : ℕ) (x : A) (q : Ptr) (r r' : Shape A) (t : A)
      → IsOrdered (node l a x q r)
      → gt t x ≡ true
      → IsWithout t r r'
      → IsWithout t (node l a x q r) (node l a x q r')
  IsWithout-right l a x q r r' t (below, over, ol, or) is_gt v =
      let no_lt : lt t x ≡ false = lt-asymm x t is_gt in
      let miss = without-items l t (below_ne l x t below no_lt) in
      record {
        items =
            ap (λ xs. items l ++ x ∷ xs) v.items
            ∙ sym (without_behind (items l) (items r) x t miss (ground arith));
        count = grind (arith, v.count, contains_right l a x q r none t is_gt);
        shrunk = right-IsShrunk l a x q r r' v.shrunk;
      }

  IsWithout-left :
      (l l' : Shape A) (a : ℕ) (x : A) (q : Ptr) (r : Shape A) (t : A)
      → IsOrdered (node l a x q r)
      → gt t x ≡ false
      → lt t x ≡ true
      → IsWithout t l l'
      → IsWithout t (node l a x q r) (node l' a x q r)
  IsWithout-left l l' a x q r t (below, over, ol, or) no_gt is_lt v =
      let miss = without-items r t (over_ne r x t over no_gt) in
      record {
        items =
            ap (λ xs. xs ++ x ∷ items r) v.items
            ∙ sym (without_before (items l) (items r) x t miss (ground arith));
        count = grind (arith, v.count, contains_left l a x q r none t no_gt is_lt);
        shrunk = left-IsShrunk l l' a x q r v.shrunk;
      }

  IsWithout-here :
      (l : Shape A) (a : ℕ) (x : A) (q : Ptr) (r s' : Shape A) (t : A)
      → IsOrdered (node l a x q r)
      → gt t x ≡ false
      → lt t x ≡ false
      → IsLeft l r s'
      → IsShrunk (node l a x q r) s'
      → IsWithout t (node l a x q r) s'
  IsWithout-here l a x q r s' t (below, over, ol, or) no_gt no_lt v w =
      let miss_l = without-items l t (below_ne l x t below no_lt) in
      let miss_r = without-items r t (over_ne r x t over no_gt) in
      record {
        items =
            v.items ∙ sym (without_between (items l) (items r) x t miss_l miss_r (ground arith));
        count = grind (arith, v.count, contains_here l a x q r none t no_gt no_lt);
        shrunk = w;
      }

  leaf-IsWithout : (t : A) → IsWithout t leaf leaf
  unfolding contains
  leaf-IsWithout t = record { items = refl; count = refl; shrunk = IsShrunk-refl leaf }

  pub remove-IsWithout :
      (s : Shape A) (p : Ptr) (t : A) → IsOrdered s → Each (IsWithout t s) (remove s p t)
  unfolding remove
  remove-IsWithout leaf p t v = leaf-IsWithout t
  remove-IsWithout (node l a x q r) p t v = elim (Bool-cases (gt t x)) [
    | inl is_gt ↦ rw (remove_right l a x q r p t is_gt) (
        Each-map (IsWithout t r) (IsWithout t (node l a x q r)) (λ s. node l a x q s)
          (λ r' w. IsWithout-right l a x q r r' t v is_gt w) (remove r (some a) t)
          (remove-IsWithout r (some a) t v.3))
    | inr no_gt ↦ elim (Bool-cases (lt t x)) [
      | inl is_lt ↦ rw (remove_left l a x q r p t no_gt is_lt) (
          Each-map (IsWithout t l) (IsWithout t (node l a x q r)) (λ s. node s a x q r)
            (λ l' w. IsWithout-left l l' a x q r t v no_gt is_lt w) (remove l (some a) t)
            (remove-IsWithout l (some a) t v.2))
      | inr no_lt ↦ rw (remove_here l a x q r p t no_gt no_lt) (
          Each-both (IsLeft l r) (IsShrunk (node l a x q r)) (IsWithout t (node l a x q r))
            (λ s' w w'. IsWithout-here l a x q r s' t v no_gt no_lt w w') (without_root l a p r)
            (without_root-IsLeft l a p r) (without_root-IsShrunk l a x q p r))
    ]
  ]
