-- ===== src/Tests/Structures.antt =====
-- Trees of minimum degree 2 with numbers for values.

use cpp_db.Prelude.{[], arith, false, refl, some, true, zero, ℕ, ◌↔◌, ◌∷◌, ◌≡◌}
use cpp_db.Structures.BTree.{
  BTree, after_descent, after_split, descent, hit, in_order, insert, insert_non_full, insert_root,
  is_full, key_below, lower_bound, place_split, search, split_child, split_node, to_list, weave,
}
use cpp_db.Structures.BTree.Check.{
  RawTree, check_invariants, check_keys, check_leaf, check_node, check_root, child_node,
  count_children, if_checked, is_counted, no_children, raw_node, refuses_size,
}
use cpp_db.Structures.BTree.Check.Complete.{check_invariants_iff}
use cpp_db.Structures.BTree.Check.Drawn.{raw_tree}
use cpp_db.Structures.BTree.Range.{for_each_range, for_each_range-between}
use cpp_db.Structures.BTree.Removal.{
  remove, remove_at_root, remove_from, remove_present, replace_by, shrink, take_min, with_shrunk,
}
use cpp_db.Structures.BTree.Removal.Whole.{RefinesDelete, remove-RefinesDelete}
use cpp_db.Structures.BTree.Search.{search-find}
use cpp_db.Structures.BTree.Shape.{IsTree}
use cpp_db.Structures.BTree.Tree.{Refines, insert-Refines}
use cpp_db.Structures.SortedMap.{between, find}

-- A full root over no children.

abbrev full_leaf : BTree ℕ
full_leaf = record {
  root = some (zero, (10, 1) ∷ (20, 2) ∷ (30, 3) ∷ []);
  min_degree = 2;
  size = 3;
}

full_leaf-IsTree : IsTree ℕ full_leaf
unfolding in_order
full_leaf-IsTree = omega arith

-- A root over two leaves, the second of them full.
abbrev two_leaves : BTree ℕ
two_leaves = record {
  root = some (1, ((20, 2) ∷ [], ((10, 1) ∷ []) ∷ ((30, 3) ∷ (40, 4) ∷ (50, 5) ∷ []) ∷ []));
  min_degree = 2;
  size = 5;
}

two_leaves-IsTree : IsTree ℕ two_leaves
unfolding in_order weave
two_leaves-IsTree = omega arith

insert_splits : (insert ℕ full_leaf 25 9).1 ≡ true
unfolding insert insert_root is_full split_child split_node place_split insert_non_full descent
    after_descent lower_bound hit after_split key_below
insert_splits = refl

insert-Refines_example : Refines ℕ 45 9 (to_list ℕ two_leaves) (insert ℕ two_leaves 45 9)
insert-Refines_example = insert-Refines ℕ two_leaves 45 9 two_leaves-IsTree

search-find_example : search ℕ two_leaves 40 ≡ find 40 (to_list ℕ two_leaves)
search-find_example = search-find ℕ two_leaves 40 two_leaves-IsTree

for_each_range-between_example :
    for_each_range ℕ two_leaves 15 40 ≡ between 15 40 (to_list ℕ two_leaves)
for_each_range-between_example = for_each_range-between ℕ two_leaves 15 40 two_leaves-IsTree

-- The key is the separator, and its successor takes its place.
remove_separator : to_list ℕ (remove ℕ two_leaves 20).0 ≡ (10, 1) ∷ (30, 3) ∷ (40, 4) ∷ (50, 5) ∷ []
unfolding remove remove_from remove_present replace_by take_min to_list in_order weave lower_bound
    hit remove_at_root with_shrunk shrink
remove_separator = refl

remove-RefinesDelete_example : RefinesDelete ℕ 10 (to_list ℕ two_leaves) (remove ℕ two_leaves 10)
remove-RefinesDelete_example = remove-RefinesDelete ℕ two_leaves 10 two_leaves-IsTree

check_invariants_iff_example :
    (check_invariants ℕ (raw_tree ℕ two_leaves) ≡ true)
    ↔ ((b : BTree ℕ) × (raw_tree ℕ b ≡ raw_tree ℕ two_leaves) × IsTree ℕ b)
check_invariants_iff_example = check_invariants_iff ℕ (raw_tree ℕ two_leaves) (omega arith)

-- Two leaves at different depths.
abbrev uneven : RawTree ℕ
uneven = record {
  root = some (
      raw_node (20 ∷ []) (2 ∷ []) (
        child_node (raw_node (10 ∷ []) (1 ∷ []) no_children) (
          child_node
            (raw_node (40 ∷ []) (4 ∷ []) (
              child_node (raw_node (30 ∷ []) (3 ∷ []) no_children)
                (child_node (raw_node (50 ∷ []) (5 ∷ []) no_children) no_children)))
            no_children)));
  min_degree = 2;
  size = 5;
}

check_refuses : check_invariants ℕ uneven ≡ false
unfolding check_invariants check_root check_node is_counted if_checked check_leaf check_keys
    refuses_size count_children
check_refuses = refl
