-- ===== src/Algorithm/Tree/Shapes.antt =====
-- Binary trees with their addresses and parent pointers, and what it means that a heap holds one.
use cpp_prac.Prelude.{
  ℕ, suc, ◌+◌, ◌≤◌, Bool, true, false, ◌||◌, Option, none, some, List, [], ◌∷◌, ◌++◌, ◌==◌,
  if◌then◌else◌, ltb, ◌≡◌, arith,
}
use cpp_prac.Prelude.Order.{Order, lt, gt}
use cpp_prac.Algorithm.Tree.{BinaryTree}
use cpp_prac.Algorithm.Tree.Nodes.{Ptr, Node, node_of, Heap, write}

-- A node has its address, its item and its parent pointer between its subtrees.
pub data Shape {ℓ} (A : Type ℓ) : Type ℓ where
  leaf : Shape A
  node : Shape A → ℕ → A → Ptr → Shape A → Shape A

abbrev pub max : ℕ → ℕ → ℕ
max m n = if ltb m n then n else m

pub max-bounds : (m n k : ℕ) → suc (max m n) ≤ suc k → (m ≤ k) × (n ≤ k)
max-bounds m n k h = ground arith

pub or_false : (b c d : Bool) → (b || (c || d)) ≡ false → (b ≡ false) × (c ≡ false) × (d ≡ false)
or_false b c d h = ground arith

module _ {ℓ} {A : Type ℓ} where
  abbrev pub ptr : Shape A → Ptr
  ptr leaf = none
  ptr (node l a x q r) = some a

  abbrev pub has : ℕ → Shape A → Bool
  has b leaf = false
  has b (node l a x q r) = (b == a) || (has b l || has b r)

  abbrev pub items : Shape A → List A
  items leaf = []
  items (node l a x q r) = items l ++ x ∷ items r

  abbrev pub count : Shape A → ℕ
  count leaf = 0
  count (node l a x q r) = count l + suc (count r)

  abbrev pub height : Shape A → ℕ
  height leaf = 0
  height (node l a x q r) = suc (max (height l) (height r))

  -- The same tree with another parent pointer at its root.
  abbrev pub reparent : Shape A → Ptr → Shape A
  reparent leaf p = leaf
  reparent (node l a x q r) p = node l a x p r

  -- The heap has the nodes of the tree.
  abbrev pub Holds : Heap A → Shape A → Type ℓ
  Holds h leaf = Unit
  Holds h (node l a x q r) = (h a ≡ some (node_of x q (ptr l) (ptr r))) × Holds h l × Holds h r

  abbrev pub IsApart : Shape A → Shape A → Type 0
  IsApart s t = (b : ℕ) → has b s ≡ true → has b t ≡ false

  -- No address stands twice.
  abbrev pub IsDistinct : Shape A → Type 0
  IsDistinct leaf = Unit
  IsDistinct (node l a x q r) =
      (has a l ≡ false) × (has a r ≡ false) × IsApart l r × IsDistinct l × IsDistinct r

  -- Every parent pointer leads to the parent, and that of the root is `p`.
  abbrev pub HasParents : Ptr → Shape A → Type 0
  HasParents p leaf = Unit
  HasParents p (node l a x q r) = (q ≡ p) × HasParents (some a) l × HasParents (some a) r

  abbrev pub All {κ} : (A → Type κ) → Shape A → Type κ
  All P leaf = Unit
  All P (node l a x q r) = All P l × P x × All P r

  pub height-count : (s : Shape A) → height s ≤ count s
  height-count leaf = omega arith
  height-count (node l a x q r) = ground (arith, height-count l, height-count r)

  pub All-imp {κ μ} :
      {P : A → Type κ} {Q : A → Type μ} → ((x : A) → P x → Q x) → (s : Shape A) → All P s → All Q s
  All-imp f leaf all = tt
  All-imp f (node l a x q r) (low, here, high) = (All-imp f l low, f x here, All-imp f r high)

  -- A tree survives any change that spares its own addresses.
  pub Holds-frame :
      (g h : Heap A) (s : Shape A) → ((b : ℕ) → has b s ≡ true → g b ≡ h b) → Holds h s → Holds g s
  Holds-frame g h leaf same m = tt
  Holds-frame g h (node l a x q r) same (here, low, high) = (
    ground (arith, same a),
    Holds-frame g h l (λ b i. same b (ground arith)) low,
    Holds-frame g h r (λ b i. same b (ground arith)) high,
  )

  pub Holds-write :
      (h : Heap A) (s : Shape A) (a : ℕ) (c : Option (Node A))
      → has a s ≡ false
      → Holds h s
      → Holds (write h a c) s
  Holds-write h s a c out m = Holds-frame (write h a c) h s (λ b i. ground arith) m

  pub has-ptr : (s : Shape A) (a : ℕ) → ptr s ≡ some a → has a s ≡ true
  has-ptr leaf a h = ground arith
  has-ptr (node l a x q r) b h = grind arith

module _ {ℓ} {A : Type ℓ} ⦃o : Order A⦄ where
  abbrev pub IsBelow : A → Shape A → Type 0
  IsBelow b s = All (λ x. lt x b ≡ true) s

  abbrev pub IsOver : A → Shape A → Type 0
  IsOver b s = All (λ x. lt b x ≡ true) s

  -- A search tree.
  abbrev pub IsOrdered : Shape A → Type 0
  IsOrdered leaf = Unit
  IsOrdered (node l a x q r) = IsBelow x l × IsOver x r × IsOrdered l × IsOrdered r

  -- `t` is found on the way down from the root.
  unfoldable pub contains : Shape A → A → Bool
  contains leaf t = false
  contains (node l a x q r) t =
      if gt t x then contains r t else if lt t x then contains l t else true

  -- A tree object whose nodes a heap holds: a search tree, with its size. Nothing is said of the
  -- parent pointers, nor of the root of an empty tree.
  pub record IsTree (h : Heap A) (tree : BinaryTree) (s : Shape A) : Type ℓ where
    pub root : (tree.size == 0) ≡ false → tree.root ≡ ptr s
    pub size : tree.size ≡ count s
    pub holds : Holds h s
    pub distinct : IsDistinct s
    pub ordered : IsOrdered s
