-- ===== src/Parser/Cst/Forest.antt =====
-- Trees side by side, as the CST of src/parser/cst.cpp stores them.
use wake.Prelude.{
  ℕ, suc, ◌+◌, List, [], ◌∷◌, ◌++◌, append_assoc, append-nil, length, length-append, get_elem?, ◌≡◌,
  refl, sym, ◌∙◌, ap, ap₂, arith,
}
use wake.Parser.Cst.{CstNode, or_no_node}
use wake.Parser.Cst.Trees.{
  Tree, Trees, tree, no_trees, then_tree, tree_size, trees_size, trees_count, top_node, preorder,
  preorders,
}
use wake.Parser.Cst.Elements.{cst_at}

-- Trees from the first one on.
abbrev pub in_order : Trees → List Tree
in_order no_trees = []
in_order (then_tree ts t) = in_order ts ++ t ∷ []

abbrev pub children : Tree → Trees
children (tree id b e ts) = ts

abbrev pub forest : List Tree → List CstNode
forest [] = []
forest (t ∷ l) = preorder t ++ forest l

abbrev pub forest_size : List Tree → ℕ
forest_size [] = 0
forest_size (t ∷ l) = tree_size t + forest_size l

pub forest-append : (l m : List Tree) → forest (l ++ m) ≡ forest l ++ forest m
forest-append [] m = refl
forest-append (t ∷ l) m =
    ap (λ k. preorder t ++ k) (forest-append l m)
    ∙ sym (append_assoc (preorder t) (forest l) (forest m))

pub forest_size-append : (l m : List Tree) → forest_size (l ++ m) ≡ forest_size l + forest_size m
forest_size-append [] m = omega arith
forest_size-append (t ∷ l) m = let i = forest_size-append l m in omega arith

pub preorders-in_order : (ts : Trees) → preorders ts ≡ forest (in_order ts)
preorders-in_order no_trees = refl
preorders-in_order (then_tree ts t) =
    ap₂ ◌++◌ (preorders-in_order ts) (sym (append-nil (preorder t)))
    ∙ sym (forest-append (in_order ts) (t ∷ []))

pub size-in_order : (ts : Trees) → trees_size ts ≡ forest_size (in_order ts)
size-in_order no_trees = refl
size-in_order (then_tree ts t) =
    let i = size-in_order ts in let j = forest_size-append (in_order ts) (t ∷ []) in omega arith

pub length-in_order : (ts : Trees) → length (in_order ts) ≡ trees_count ts
length-in_order no_trees = refl
length-in_order (then_tree ts t) =
    let i = length-in_order ts in
    let j = length-append (in_order ts) (t ∷ []) in
    let z : length (t ∷ []) ≡ 1 = refl in omega arith

mutual
  pub length-preorder : (t : Tree) → length (preorder t) ≡ tree_size t
  length-preorder (tree id b e ts) = ap suc (length-preorders ts)

  pub length-preorders : (ts : Trees) → length (preorders ts) ≡ trees_size ts
  length-preorders no_trees = refl
  length-preorders (then_tree ts t) =
      length-append (preorders ts) (preorder t) ∙ ap₂ ◌+◌ (length-preorders ts) (length-preorder t)

-- The node of a tree that other nodes stand before.
pub cst_at-preorder :
    (nodes front back : List CstNode) (t : Tree)
    → nodes ≡ front ++ (preorder t ++ back)
    → cst_at nodes (length front) ≡ top_node t
cst_at-preorder nodes front back t e =
    ap (λ l. or_no_node (get_elem? l (length front))) e ∙ at_front front t
  where
    at_front :
        (xs : List CstNode) (t : Tree)
        → or_no_node (get_elem? (xs ++ (preorder t ++ back)) (length xs)) ≡ top_node t
    at_front [] (tree id b e ts) = refl
    at_front (x ∷ xs) t = at_front xs t
