-- ===== src/Parser/Cst/Trees.antt =====
-- Syntax trees, and the two orders of their nodes that src/parser/cst.cpp uses.
use wake.Prelude.{
  ℕ, suc, ◌+◌, ◌<◌, List, [], ◌∷◌, ◌++◌, length, get_elem?, ◌≡◌, refl, ◌∙◌, ap, arith,
}
use wake.Parser.Cst.{CstNode, or_no_node}

-- A tree: its identifier, the bytes that it covers and its children, first one first.
mutual
  pub data Tree : Type 0 where
    tree : ℕ → ℕ → ℕ → Trees → Tree

  pub data Trees : Type 0 where
    no_trees : Trees
    then_tree : Trees → Tree → Trees

abbrev mutual
  pub tree_size : Tree → ℕ
  tree_size (tree id b e ts) = suc (trees_size ts)

  pub trees_size : Trees → ℕ
  trees_size no_trees = 0
  trees_size (then_tree ts t) = trees_size ts + tree_size t

abbrev pub trees_count : Trees → ℕ
trees_count no_trees = 0
trees_count (then_tree ts t) = suc (trees_count ts)

-- The node of a tree.
abbrev pub top_node : Tree → CstNode
top_node (tree id b e ts) = record { id = id; size = suc (trees_size ts); begin = b; end = e }

-- The nodes behind their children, from the last one back, with the nodes that stand before them.
abbrev mutual
  pub postorder : Tree → List CstNode → List CstNode
  postorder (tree id b e ts) rest = top_node (tree id b e ts) ∷ postorders ts rest

  pub postorders : Trees → List CstNode → List CstNode
  postorders no_trees rest = rest
  postorders (then_tree ts t) rest = postorder t (postorders ts rest)

-- The nodes before their children.
abbrev mutual
  pub preorder : Tree → List CstNode
  preorder (tree id b e ts) = top_node (tree id b e ts) ∷ preorders ts

  pub preorders : Trees → List CstNode
  preorders no_trees = []
  preorders (then_tree ts t) = preorders ts ++ preorder t

mutual
  pub length-postorder :
      (t : Tree) (rest : List CstNode) → length (postorder t rest) ≡ tree_size t + length rest
  length-postorder (tree id b e ts) rest = let i = length-postorders ts rest in omega arith

  pub length-postorders :
      (ts : Trees) (rest : List CstNode) → length (postorders ts rest) ≡ trees_size ts + length rest
  length-postorders no_trees rest = omega arith
  length-postorders (then_tree ts t) rest =
      let i = length-postorder t (postorders ts rest) in
      let j = length-postorders ts rest in omega arith

mutual
  pub postorder-append :
      (t : Tree) (rest more : List CstNode) → postorder t rest ++ more ≡ postorder t (rest ++ more)
  postorder-append (tree id b e ts) rest more =
      ap (λ l. top_node (tree id b e ts) ∷ l) (postorders-append ts rest more)

  pub postorders-append :
      (ts : Trees) (rest more : List CstNode)
      → postorders ts rest ++ more ≡ postorders ts (rest ++ more)
  postorders-append no_trees rest more = refl
  postorders-append (then_tree ts t) rest more =
      postorder-append t (postorders ts rest) more
      ∙ ap (postorder t) (postorders-append ts rest more)

pub tree_size_pos : (t : Tree) → 0 < tree_size t
tree_size_pos (tree id b e ts) = omega arith

pub size-top_node : (t : Tree) → (top_node t).size ≡ tree_size t
size-top_node (tree id b e ts) = refl

-- The node of a tree that stands behind other nodes.
pub get_elem?-postorder :
    (front rest : List CstNode) (t : Tree)
    → or_no_node (get_elem? (front ++ postorder t rest) (length front)) ≡ top_node t
get_elem?-postorder [] rest (tree id b e ts) = refl
get_elem?-postorder (n ∷ front) rest t = get_elem?-postorder front rest t
