-- ===== src/Parser/Cst/Tests.antt =====
-- A tree of two leaves and a node over them, beside another leaf, under a top node.
use wake.Prelude.{ℕ, [], ◌∷◌, map, min, max, ◌≡◌, refl, arith}
use wake.Parser.Cst.{
  add_leaf, del_nodes, add_node, add_node_begin, add_node_end, add_node_both, cst,
}
use wake.Parser.Cst.Trees.{
  preorders, Tree, Trees, tree, no_trees, then_tree, top_node, postorder, postorders, preorder,
}
use wake.Parser.Cst.Preorder.{cst-preorder}
use wake.Parser.Cst.Builder.{add_nodes-postorder, del_nodes-postorders}
use wake.Parser.Cst.Elements.{root_element, first_child_node, visit}
use wake.Parser.Cst.Forest.{in_order, children}
use wake.Parser.Cst.Siblings.{visit-first_child_node}

abbrev leaf : ℕ → ℕ → ℕ → Tree
leaf id b e = tree id b e no_trees

abbrev pair_of : Trees
pair_of = then_tree (then_tree no_trees (leaf 141 3 5)) (leaf 148 6 9)

abbrev whole : Tree
whole = tree 160 0 14 (then_tree (then_tree no_trees (tree 128 3 9 pair_of)) (leaf 141 10 13))

-- The builder's calls for it.
builder_runs :
    add_node_both 160
      (0, 2)
      2
      (13, 14)
      (add_leaf 141 (10, 13) (add_node 128 2 (add_leaf 148 (6, 9) (add_leaf 141 (3, 5) []))))
    ≡ postorder whole []
unfolding add_node add_node_both
builder_runs = refl

visit_runs :
    visit (preorder whole) 5 (first_child_node (preorder whole) (root_element (preorder whole) 14))
    ≡ top_node (tree 128 3 9 pair_of) ∷ top_node (leaf 141 10 13) ∷ []
unfolding visit first_child_node
visit_runs = refl

add_nodes-postorder_example :
    (add_leaf 128 (2, 3) (add_leaf 135 (0, 2) [])
      ≡ postorder (tree 128 2 3 no_trees) (add_leaf 135 (0, 2) []))
    × (add_node 128 2 (postorders pair_of (add_leaf 135 (0, 2) []))
        ≡ postorder (tree 128 3 9 pair_of) (add_leaf 135 (0, 2) []))
    × (add_node_begin 128 (2, 3) 2 (postorders pair_of (add_leaf 135 (0, 2) []))
        ≡ postorder (tree 128 (min 2 3) 9 pair_of) (add_leaf 135 (0, 2) []))
    × (add_node_end 128 2 (9, 11) (postorders pair_of (add_leaf 135 (0, 2) []))
        ≡ postorder (tree 128 3 (max 9 11) pair_of) (add_leaf 135 (0, 2) []))
    × (add_node_both 128 (2, 3) 2 (9, 11) (postorders pair_of (add_leaf 135 (0, 2) []))
        ≡ postorder (tree 128 (min 3 2) (max 11 9) pair_of) (add_leaf 135 (0, 2) []))
add_nodes-postorder_example =
    add_nodes-postorder 128 pair_of (2, 3) (9, 11) (add_leaf 135 (0, 2) []) (omega arith)

del_nodes-postorders_example :
    del_nodes 2 (postorders pair_of (add_leaf 135 (0, 2) [])) ≡ add_leaf 135 (0, 2) []
del_nodes-postorders_example = del_nodes-postorders pair_of (add_leaf 135 (0, 2) []) (omega arith)

cst-preorder_example :
    cst 20 (postorder whole (add_leaf 135 (0, 2) []))
    ≡ record { id = 160; size = 5; begin = 0; end = 20 }
      ∷ preorders (then_tree (then_tree no_trees (tree 128 3 9 pair_of)) (leaf 141 10 13))
cst-preorder_example =
    cst-preorder 20 160 0 14
      (then_tree (then_tree no_trees (tree 128 3 9 pair_of)) (leaf 141 10 13))
      (add_leaf 135 (0, 2) []) (omega arith)

visit-first_child_node_example :
    visit (preorder whole) 5 (first_child_node (preorder whole) (root_element (preorder whole) 14))
    ≡ map top_node (in_order (children whole))
visit-first_child_node_example =
    visit-first_child_node (preorder whole) whole (root_element (preorder whole) 14) 5 [] [] refl
      refl refl (omega arith) (omega arith)
