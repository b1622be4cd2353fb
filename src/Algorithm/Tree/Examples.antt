-- ===== src/Algorithm/Tree/Examples.antt =====
-- The trees of algorithm/tree.hpp at inputs, and the theorems about them.
use cpp_prac.Prelude.{
  ℕ, Bool, true, false, none, some, List, [], ◌∷◌, ◌≡◌, refl, ◌==◌, if◌then◌else◌, arith,
}
use cpp_prac.Prelude.Int.{ℤ, pos, int_order}
use cpp_prac.Algorithm.Tree.{
  BinaryTree, new_tree, new_node, add_loop, add, hang_left, hang_right, del_loop, del, unlink,
  unlink_leaf, unlink_single, unlink_both, leftmost, detach, hand_over, replace_child, destroy,
}
use cpp_prac.Algorithm.Tree.Nodes.{
  node_of, Heap, load, update, delete, Run, ok, fault, out_of_fuel, ◌>>=◌,
}
use cpp_prac.Algorithm.Tree.Shapes.{Shape, leaf, node, has, IsApart, IsTree}
use cpp_prac.Algorithm.Tree.Freeing.{destroy-all}
use cpp_prac.Algorithm.Tree.Stuck.{is_stuck}
use cpp_prac.Algorithm.Tree.Deletion.{Deleted, del-without}
use cpp_prac.Algorithm.Tree.Sessions.{add_all, Session, add_all-search}

abbrev pairs : List (ℕ × ℤ)
pairs = (1, pos 4) ∷ (2, pos 2) ∷ (3, pos 6) ∷ (4, pos 7) ∷ (5, pos 2) ∷ []

abbrev no_nodes : Heap ℤ
no_nodes a = none

add_all-search_example : Session (some 9) pairs no_nodes
add_all-search_example =
    add_all-search (some 9) pairs no_nodes
      (refl, refl, (refl, refl, (refl, refl, (refl, refl, (refl, refl, tt)))))

-- The tree of 4, with 2 at its left and 6 at its right, which has 7 at its right.
abbrev six : Shape ℤ
six = node leaf 3 (pos 6) (some 1) (node leaf 4 (pos 7) (some 3) leaf)

abbrev two : Shape ℤ
two = node leaf 2 (pos 2) (some 1) leaf

abbrev four : Shape ℤ
four = node two 1 (pos 4) none six

abbrev nodes : Heap ℤ
nodes a =
    if a == 1
    then some (node_of (pos 4) none (some 2) (some 3))
    else if a == 2
    then some (node_of (pos 2) (some 1) none none)
    else if a == 3
    then some (node_of (pos 6) (some 1) none (some 4))
    else if a == 4
    then some (node_of (pos 7) (some 3) none none)
    else none

abbrev tree : BinaryTree
tree = record { root = some 1; size = 4 }

two-IsApart : IsApart two six
two-IsApart b i = ground arith

four-IsTree : IsTree nodes tree four
four-IsTree = record {
  root = λ e. refl;
  size = refl;
  holds = (refl, (refl, tt, tt), (refl, tt, (refl, tt, tt)));
  distinct = (
    refl,
    refl,
    two-IsApart,
    (refl, refl, (λ b i. refl), tt, tt),
    (refl, refl, (λ b i. ground arith), tt, (refl, refl, (λ b i. refl), tt, tt)),
  );
  ordered = (
    (tt, refl, tt),
    (tt, refl, (tt, refl, tt)),
    (tt, tt, tt, tt),
    (tt, (tt, refl, tt), tt, (tt, tt, tt, tt)),
  );
}

del-without_example :
    (is_stuck four (pos 4) ≡ true → del tree (pos 4) nodes ≡ fault)
    × (is_stuck four (pos 4) ≡ false → Deleted tree four (pos 4) nodes)
del-without_example =
    del-without tree four (pos 4) nodes four-IsTree
      (refl, (refl, tt, tt), (refl, tt, (refl, tt, tt)))

destroy-all_example :
    (g : Heap ℤ) × (destroy tree nodes ≡ ok (record tree { size = 0 }) g)
    × ((b : ℕ) → g b ≡ (if has b four then none else nodes b))
destroy-all_example = destroy-all nodes tree four four-IsTree refl

-- The root of a tree of three items follows a null pointer, and is removed from the tree above.
abbrev is_fault {ℓ κ} : {A : Type ℓ} {B : Type κ} → Run A B → Bool
is_fault fault = true
is_fault (ok b h) = false
is_fault out_of_fuel = false

del_root_of_three :
    is_fault (
      (add_all (new_tree none) ((1, pos 2) ∷ (2, pos 1) ∷ (3, pos 3) ∷ []) >>= λ t. del t (pos 2))
        no_nodes)
    ≡ true
unfolding add_all add new_tree new_node add_loop load hang_left update hang_right del del_loop
    unlink unlink_both leftmost detach hand_over
del_root_of_three = refl

-- The child of a removed node has its parent pointer still at that node, and its own removal follows it.
del_twice :
    is_fault (
      (add_all (new_tree none) ((1, pos 2) ∷ (2, pos 4) ∷ (3, pos 6) ∷ []) >>= λ t.
      del t (pos 4) >>= λ r. del r.1 (pos 6))
        no_nodes)
    ≡ true
unfolding add_all add new_tree new_node add_loop load hang_right update del del_loop unlink
    unlink_single replace_child delete unlink_leaf
del_twice = refl
