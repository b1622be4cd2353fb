-- ===== src/Algorithm/Descending.antt =====
-- Descending lists: the order that algorithm/sort.hpp produces and that the binary search of
-- algorithm/search.hpp expects.
use mathlib.Core.List.{
  mem-cons_self, mem-cons_of_mem, mem-cons, not-mem-nil, mem-append, forall_mem-cons,
  Pairwise-singleton,
}
use mathlib.Core.List.Perm
use mathlib.Core.List.Pairwise
use mathlib.Core.Logic.Or
use mathlib.Core.Option.{some-injective}
use cpp_prac.Prelude.{subst}
use mathlib.Core.Bool.{Bool-set}
use cpp_prac.Prelude.{
  ℕ, zero, suc, ◌≤◌, ◌≡◌, Bool, true, false, not, ◌&&◌, some, List, [], ◌∷◌, ◌++◌, Mem, Perm,
  Pairwise, arith, get_elem?, length, if◌then◌else◌,
}
use cpp_prac.Prelude.Order.{Order, Ge, Ge-refl, Ge-trans}

module _ {ℓ} {A : Type ℓ} ⦃o : Order A⦄ where
  abbrev pub IsDescending : List A → Type ℓ
  IsDescending = Pairwise Ge

  -- No element of the list is above `a`.
  abbrev pub IsAbove : A → List A → Type ℓ
  IsAbove a l = (x : A) → Mem x l → Ge a x

  -- No element of the first list is below an element of the second.
  abbrev pub Dominates : List A → List A → Type ℓ
  Dominates l r = (a : A) → Mem a l → IsAbove a r

  pub Ge-prop : (a b : A) → IsProp (Ge a b)
  Ge-prop a b = Bool-set _ _

  pub IsAbove-cons : (a b : A) (l : List A) → Ge a b → IsAbove a l → IsAbove a (b ∷ l)
  IsAbove-cons a b l p h = (forall_mem-cons (Ge-prop a)).1 (p, h)

  pub IsAbove-append : (a : A) (l r : List A) → IsAbove a l → IsAbove a r → IsAbove a (l ++ r)
  IsAbove-append a l r hl hr x m = Or.elim (Ge-prop a x) (mem-append.0 m) (hl x) (hr x)

  pub IsAbove-perm : (a : A) (l r : List A) → Perm l r → IsAbove a r → IsAbove a l
  IsAbove-perm a l r p h x m = h x ((Perm.mem_iff p).0 m)

  pub IsAbove-trans : (a b : A) (l : List A) → Ge a b → IsAbove b l → IsAbove a l
  IsAbove-trans a b l p h x m = Ge-trans a b x p (h x m)

  pub IsDescending-append :
      (l r : List A) → IsDescending l → IsDescending r → Dominates l r → IsDescending (l ++ r)
  IsDescending-append [] r dl dr h = dr
  IsDescending-append (x ∷ l) r (Pairwise.cons below dl) dr h =
      Pairwise.cons (IsAbove-append x l r below (h x mem-cons_self))
        (IsDescending-append l r dl dr (λ a m. h a (mem-cons_of_mem x m)))

  pub get_elem?-Mem : (l : List A) (i : ℕ) (a : A) → get_elem? l i ≡ some a → Mem a l
  get_elem?-Mem [] i a h = absurd (ground arith)
  get_elem?-Mem (x ∷ l) zero a h = subst (λ y. Mem y (x ∷ l)) (some-injective x a h) mem-cons_self
  get_elem?-Mem (x ∷ l) (suc i) a h = mem-cons_of_mem x (get_elem?-Mem l i a h)

  -- The elements of a descending list fall with the index.
  pub IsDescending-get_elem? :
      (l : List A) (i j : ℕ) (a b : A)
      → IsDescending l
      → i ≤ j
      → get_elem? l i ≡ some a
      → get_elem? l j ≡ some b
      → Ge a b
  IsDescending-get_elem? [] i j a b d h p q = absurd (ground arith)
  IsDescending-get_elem? (x ∷ l) zero zero a b d h p q = ground (arith, Ge-refl a)
  IsDescending-get_elem? (x ∷ l) zero (suc j) a b (Pairwise.cons below d) h p q =
      ground (arith, below b (get_elem?-Mem l j b q))
  IsDescending-get_elem? (x ∷ l) (suc i) zero a b d h p q = absurd (omega arith)
  IsDescending-get_elem? (x ∷ l) (suc i) (suc j) a b (Pairwise.cons below d) h p q =
      IsDescending-get_elem? l i j a b d (omega arith) p q

  -- A sort is right when it returns a descending rearrangement of its input.
  abbrev pub IsSortOf : List A → List A → Type ℓ
  IsSortOf xs r = IsDescending r × Perm r xs

  pub IsDescending-short : (l : List A) → length l ≤ 1 → IsDescending l
  IsDescending-short [] h = Pairwise.nil
  IsDescending-short (x ∷ []) h = Pairwise-singleton _ x
  IsDescending-short (x ∷ y ∷ l) h = absurd (omega arith)

  -- The exchange of two neighbours that the sorts make: the higher goes first.
  abbrev pub higher : A → A → A
  higher x y = if o.lt x y then y else x

  abbrev pub lower : A → A → A
  lower x y = if o.lt x y then x else y

  lower-higher-perm :
      (b : Bool) (x y : A) (l : List A)
      → Perm ((if b then x else y) ∷ (if b then y else x) ∷ l) (x ∷ y ∷ l)
  lower-higher-perm true x y l = Perm.rfl
  lower-higher-perm false x y l = Perm.swap x y l

  pub exchange-perm : (x y : A) (l : List A) → Perm (lower x y ∷ higher x y ∷ l) (x ∷ y ∷ l)
  exchange-perm x y l = lower-higher-perm (o.lt x y) x y l

  pub higher-Ge : (x y : A) → Ge (higher x y) x × Ge (higher x y) (lower x y)
  higher-Ge x y = ground (arith, o.irrefl x, o.trans x y x)

  -- A check by neighbours, for data that is written out.
  abbrev pub all_of : (A → Bool) → List A → Bool
  all_of p [] = true
  all_of p (x ∷ xs) = p x && all_of p xs

  pub all_of_sound :
      (p : A → Bool) (l : List A) → all_of p l ≡ true → (x : A) → Mem x l → p x ≡ true
  all_of_sound p [] h x m = absurd (not-mem-nil m)
  all_of_sound p (y ∷ l) h x m =
      Or.elim (Bool-set _ _) (mem-cons.0 m) (λ e. rw e (ground arith))
        (all_of_sound p l (ground arith) x)

  abbrev pub is_pairwise : (A → A → Bool) → List A → Bool
  is_pairwise r [] = true
  is_pairwise r (x ∷ xs) = all_of (r x) xs && is_pairwise r xs

  pub is_pairwise_sound :
      (r : A → A → Bool) (l : List A) → is_pairwise r l ≡ true → Pairwise (λ a b. r a b ≡ true) l
  is_pairwise_sound r [] h = Pairwise.nil
  is_pairwise_sound r (x ∷ l) h =
      Pairwise.cons (all_of_sound (r x) l (ground arith)) (is_pairwise_sound r l (ground arith))

  pub IsDescending-of_test :
      (l : List A) → is_pairwise (λ a b. not (o.lt a b)) l ≡ true → IsDescending l
  IsDescending-of_test l h =
      Pairwise.imp (λ a b e. ground arith) (is_pairwise_sound (λ a b. not (o.lt a b)) l h)
