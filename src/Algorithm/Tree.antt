-- ===== src/Algorithm/Tree.antt =====
-- algorithm/tree.hpp: `BinaryTree` on an explicit heap of nodes. The elements are any type with the
-- comparisons of int. Each `while (true)` runs on fuel and is given `m_size` rounds, of which a
-- search tree needs no more; `freeNode` and `print` have `m_size` for the depth of their calls and one more. What
-- `new` returns is an argument.
pub mod Nodes
pub mod Shapes
pub mod Insert
pub mod Adding
pub mod Members
pub mod Visiting
pub mod Freeing
pub mod Building
pub mod Removal
pub mod Slots
pub mod Detaching
pub mod Unlinking
pub mod Handing
pub mod Promoting
pub mod Pairs
pub mod Deleting
pub mod Unfolding
pub mod Lifting
pub mod Searching
pub mod Shrinking
pub mod Removing
pub mod Without
pub mod Stuck
pub mod Deletion
pub mod Sessions
mod Examples
use cpp_prac.Prelude.{
  ℕ, zero, suc, ◌+◌, ◌-◌, ◌==◌, Bool, true, false, Option, none, some, List, [], ◌∷◌, ◌++◌,
  if◌then◌else◌,
}
use cpp_prac.Prelude.Order.{Order, lt, gt, eq}
use cpp_prac.Algorithm.Tree.Nodes.{
  Ptr, same, Node, node_of, Heap, Run, ok, fault, out_of_fuel, Cmd, pure, ◌>>=◌, ◌>>◌, load, store,
  set_parent, set_left, set_right, delete,
}

-- `m_root`, which the default constructor leaves as it is, and `m_size`.
pub record BinaryTree : Type 0 where
  pub root : Ptr
  pub size : ℕ

unfoldable pub new_tree : Ptr → BinaryTree
new_tree memory = record { root = memory; size = 0 }

module _ {ℓ} {A : Type ℓ} ⦃o : Order A⦄ where
  -- `new Node<T>(t)`
  pub new_node : ℕ → A → Cmd A (Unit {0})
  new_node fresh t = store fresh (some (node_of t none none none))

  -- A new node at the right, or the left, of the current one.
  unfoldable pub hang_right : ℕ → A → Ptr → Cmd A Bool
  unfolding new_node
  hang_right fresh t cur = do
    new_node fresh t
    set_right cur (some fresh)
    c ← load cur
    set_parent c.right cur
    pure true

  unfoldable pub hang_left : ℕ → A → Ptr → Cmd A Bool
  unfolding new_node
  hang_left fresh t cur = do
    new_node fresh t
    set_left cur (some fresh)
    c ← load cur
    set_parent c.left cur
    pure true

  -- The loop of `add`: whether a node was added.
  unfoldable pub add_loop : ℕ → A → ℕ → Ptr → Cmd A Bool
  add_loop zero t fresh cur = λ _. out_of_fuel
  add_loop (suc k) t fresh cur = do
    n ← load cur
    elim (gt t n.item) [
      | true ↦ elim n.right [ none ↦ hang_right fresh t cur | some r ↦ add_loop k t fresh (some r) ]
      | false ↦ elim (lt t n.item) [
        | true ↦ elim n.left [ none ↦ hang_left fresh t cur | some l ↦ add_loop k t fresh (some l) ]
        | false ↦ pure false
      ]
    ]

  unfoldable pub add : BinaryTree → A → ℕ → Cmd A BinaryTree
  add tree t fresh =
      if tree.size == 0
      then (do new_node fresh t; pure (record { root = some fresh; size = 1 }))
      else do
        added ← add_loop tree.size t fresh tree.root
        pure (if added then record tree { size = tree.size + 1 } else tree)

  -- The loop of `search`, with the count that it prints.
  unfoldable pub search_loop : ℕ → A → ℕ → Ptr → Cmd A (Bool × ℕ)
  search_loop zero t counter cur = λ _. out_of_fuel
  search_loop (suc k) t counter cur = do
    n ← load cur
    elim (eq n.item t) [
      | true ↦ pure (true, counter + 1)
      | false ↦ elim (gt t n.item) [
        | true ↦ elim n.right [
          | none ↦ pure (false, counter + 1)
          | some r ↦ search_loop k t (counter + 1) (some r)
        ]
        | false ↦ elim (lt t n.item) [
          | true ↦ elim n.left [
            | none ↦ pure (false, counter + 1)
            | some l ↦ search_loop k t (counter + 1) (some l)
          ]
          | false ↦ search_loop k t (counter + 1) cur
        ]
      ]
    ]

  unfoldable pub search : BinaryTree → A → Cmd A (Bool × ℕ)
  search tree t = if tree.size == 0 then pure (false, 0) else search_loop tree.size t 0 tree.root

  -- `print`: what it prints.
  unfoldable pub print : ℕ → Ptr → Cmd A (List A)
  print k none = pure []
  print zero (some a) = λ _. out_of_fuel
  print (suc k) (some a) = do
    n ← load (some a)
    before ← print k n.left
    behind ← print k n.right
    pure (before ++ n.item ∷ behind)

  unfoldable pub trav_print : BinaryTree → Cmd A (List A)
  trav_print tree = print (tree.size + 1) tree.root

  unfoldable pub free_node : ℕ → Ptr → Cmd A (Unit {0})
  free_node k none = pure tt
  free_node zero (some a) = λ _. out_of_fuel
  free_node (suc k) (some a) = do
    n ← load (some a)
    free_node k n.left
    m ← load (some a)
    free_node k m.right
    delete (some a)

  -- The destructor.
  unfoldable pub destroy : BinaryTree → Cmd A BinaryTree
  destroy tree = do
    free_node (tree.size + 1) tree.root
    pure (record tree { size = elim tree.root [ none ↦ tree.size | some _ ↦ 0 ] })

  -- Puts `new` in the place of the child `cur` of `p`, where `cur` is a child of `p`.
  unfoldable pub replace_child : Ptr → Ptr → Ptr → Cmd A (Unit {0})
  replace_child p cur new = do
    n ← load p
    (if same n.left cur
        then set_left p new
        else (if same n.right cur then set_right p new else pure tt))

  -- The same without the second test.
  unfoldable pub replace_other : Ptr → Ptr → Ptr → Cmd A (Unit {0})
  replace_other p cur new = do
    n ← load p
    (if same n.left cur then set_left p new else set_right p new)

  -- `del` of a node without children.
  unfoldable pub unlink_leaf : BinaryTree → Ptr → Ptr → Cmd A BinaryTree
  unlink_leaf tree cur none = delete cur >> pure (record tree { root = none })
  unlink_leaf tree cur (some p) = do replace_child (some p) cur none; delete cur; pure tree

  -- `del` of a node with one child, at the right or at the left.
  unfoldable pub unlink_single : (Node A → Ptr) → BinaryTree → Ptr → Ptr → Cmd A BinaryTree
  unlink_single child tree cur none = do
    m ← load tree.root
    set_parent (child m) none
    delete cur
    pure (record tree { root = child m })
  unlink_single child tree cur (some p) = do
    n ← load cur
    replace_child (some p) cur (child n)
    delete cur
    pure tree

  -- The loop to the least node of the right subtree.
  unfoldable pub leftmost : ℕ → Ptr → Cmd A Ptr
  leftmost zero target = λ _. out_of_fuel
  leftmost (suc k) target = do
    n ← load target
    elim n.left [ none ↦ pure target | some l ↦ leftmost k (some l) ]

  -- Takes `target` out of its place; its right child moves up.
  unfoldable pub detach : Ptr → Cmd A (Unit {0})
  unfolding replace_other
  detach target = do
    m ← load target
    elim m.right [
      | some c ↦ do replace_other m.parent target (some c); set_parent (some c) m.parent
      | none ↦ replace_other m.parent target none
    ]

  -- Hands the children of `cur` over to `target`.
  unfoldable pub hand_over : Ptr → Ptr → Cmd A (Unit {0})
  hand_over cur target = do
    c ← load cur
    set_left target c.left
    set_parent c.left target
    d ← load cur
    set_right target d.right
    set_parent d.right target

  unfoldable pub take_place : BinaryTree → Ptr → Ptr → Ptr → Cmd A BinaryTree
  unfolding replace_other
  take_place tree cur target none = do
    set_parent target none
    delete cur
    pure (record tree { root = target })
  take_place tree cur target (some p) = do
    replace_other (some p) cur target
    set_parent target (some p)
    delete cur
    pure tree

  -- `del` of a node with two children.
  unfoldable pub unlink_both : ℕ → BinaryTree → Ptr → Cmd A BinaryTree
  unfolding take_place
  unlink_both k tree cur = do
    n ← load cur
    target ← leftmost k n.right
    detach target
    hand_over cur target
    c ← load cur
    take_place tree cur target c.parent

  unfoldable pub unlink : ℕ → BinaryTree → Ptr → Cmd A BinaryTree
  unlink k tree cur = do
    n ← load cur
    elim n.left [
      | none ↦ elim n.right [
        | none ↦ unlink_leaf tree cur n.parent
        | some _ ↦ unlink_single (λ m. m.right) tree cur n.parent
      ]
      | some _ ↦ elim n.right [
        | none ↦ unlink_single (λ m. m.left) tree cur n.parent
        | some _ ↦ unlink_both k tree cur
      ]
    ]

  -- The loop of `del`; `fuel` is for the loop to the least node.
  unfoldable pub del_loop : ℕ → ℕ → A → BinaryTree → Ptr → Cmd A (Bool × BinaryTree)
  del_loop zero fuel t tree cur = λ _. out_of_fuel
  del_loop (suc k) fuel t tree cur = do
    n ← load cur
    elim (eq n.item t) [
      | true ↦ do tree' ← unlink fuel tree cur; pure (true, tree')
      | false ↦ elim (gt t n.item) [
        | true ↦ elim n.right [
          | none ↦ pure (false, tree)
          | some r ↦ del_loop k fuel t tree (some r)
        ]
        | false ↦ elim (lt t n.item) [
          | true ↦ elim n.left [
            | none ↦ pure (false, tree)
            | some l ↦ del_loop k fuel t tree (some l)
          ]
          | false ↦ del_loop k fuel t tree cur
        ]
      ]
    ]

  unfoldable pub del : BinaryTree → A → Cmd A (Bool × BinaryTree)
  del tree t = if tree.size == 0 then pure (false, tree) else do
    (found, tree') ← del_loop tree.size tree.size t tree tree.root
    pure (found, if found then record tree' { size = tree'.size - 1 } else tree')
