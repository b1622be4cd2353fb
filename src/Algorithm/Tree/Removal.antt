-- ===== src/Algorithm/Tree/Removal.antt =====
-- Removal from a search tree, as `del` of algorithm/tree.hpp carries it out: with the parent pointers that it leaves.
use cpp_prac.Prelude.{ℕ, Option, none, some, if◌then◌else◌}
use mathlib.Core.Option
use cpp_prac.Prelude.Order.{Order, gt, eq}
use cpp_prac.Algorithm.Tree.Nodes.{Ptr}
use cpp_prac.Algorithm.Tree.Shapes.{Shape, leaf, node, reparent}

module _ {ℓ} {A : Type ℓ} where
  -- The least node, its item and its parent pointer, and the tree without it.
  unfoldable pub pop_min : Shape A → ℕ → A → Ptr → Shape A → ℕ × A × Ptr × Shape A × Shape A
  pop_min leaf a x q r = (a, x, q, r, reparent r q)
  pop_min (node ll b y p lr) a x q r =
      let (c, z, s, moved, rest) = pop_min ll b y p lr in (c, z, s, moved, node rest a x q r)

  -- The least node of the right subtree between the left subtree and the rest of the right one, which
  -- has to have a node.
  abbrev pub promote : Ptr → Shape A → ℕ → A → Shape A → Option (Shape A)
  promote p l m w leaf = none
  promote p l m w (node sl d v u sr) =
      some (node (reparent l (some m)) m w p (node sl d v (some m) sr))

  -- The child of the removed node, which loses its parent pointer where it becomes the root.
  abbrev pub moved_up : Ptr → Shape A → Shape A
  moved_up none s = reparent s none
  moved_up (some c) s = s

  -- The tree in place of a node whose parent is `p`; `none` is a fault. The child of a node with one
  -- child keeps its parent pointer, unless it is the new root.
  unfoldable pub without_root : Shape A → ℕ → Ptr → Shape A → Option (Shape A)
  without_root leaf a p leaf = some leaf
  without_root leaf a p (node rl b y q rr) = some (moved_up p (node rl b y q rr))
  without_root (node ll b y q lr) a p leaf = some (moved_up p (node ll b y q lr))
  without_root (node ll b y q lr) a p (node rl c z s rr) =
      let (m, w, _, _, rest) = pop_min rl c z s rr in promote p (node ll b y q lr) m w rest

module _ {ℓ} {A : Type ℓ} ⦃o : Order A⦄ where
  unfoldable pub remove : Shape A → Ptr → A → Option (Shape A)
  remove leaf p t = some leaf
  remove (node l a x q r) p t =
      if eq x t
      then without_root l a p r
      else if gt t x
      then Option.map (λ s. node l a x q s) (remove r (some a) t)
      else Option.map (λ s. node s a x q r) (remove l (some a) t)
