-- ===== src/Parser/Cst/Preorder.antt =====
-- CST::CST of src/parser/cst.cpp lists the nodes of the last tree before their children.
use wake.Prelude.{
  ℕ, zero, suc, ◌+◌, ◌-◌, ◌^◌, ◌<◌, ◌≤◌, List, [], ◌∷◌, ◌++◌, append_assoc, append-nil, length,
  length-append, get_elem?, false, ◌==◌, ==_refl, ◌≡◌, refl, sym, ◌∙◌, ap, ap₂, arith,
}
use wake.Parser.Cst.{CstNode, or_no_node, node_at, push_children, list_nodes, span_file, cst}
use wake.Parser.Cst.Trees.{
  Tree, Trees, tree, no_trees, then_tree, tree_size, trees_size, trees_count, top_node, postorder,
  postorders, preorder, preorders, length-postorder, length-postorders, postorder-append,
  tree_size_pos, size-top_node, get_elem?-postorder,
}

-- The node numbers of trees, on top of a stack.
abbrev numbers : Trees → List CstNode → List ℕ → List ℕ
numbers no_trees rest stack = stack
numbers (then_tree ts t) rest stack =
    numbers ts rest (length (postorder t (postorders ts rest)) ∷ stack)

node_at-postorder :
    (nodes front rest : List CstNode) (t : Tree)
    → nodes ≡ front ++ postorder t rest
    → node_at nodes (length (postorder t rest)) ≡ top_node t
node_at-postorder nodes front rest t e =
    ap₂ (λ l i. or_no_node (get_elem? l i)) e
      (ap (λ l. length l - length (postorder t rest)) e ∙ front_length)
    ∙ get_elem?-postorder front rest t
  where
    front_length : length (front ++ postorder t rest) - length (postorder t rest) ≡ length front
    front_length = let i = length-append front (postorder t rest) in omega arith

-- The nodes before the last tree's.
behind_last :
    (nodes front rest : List CstNode) (ts : Trees) (t : Tree)
    → nodes ≡ front ++ postorders (then_tree ts t) rest
    → nodes ≡ (front ++ postorder t []) ++ postorders ts rest
behind_last nodes front rest ts t e =
    e
    ∙ ap (λ l. front ++ l) (sym (postorder-append t [] (postorders ts rest)))
    ∙ sym (append_assoc front (postorder t []) (postorders ts rest))

trees_count_le : (ts : Trees) → trees_count ts ≤ trees_size ts
trees_count_le no_trees = omega arith
trees_count_le (then_tree ts t) =
    let i = trees_count_le ts in let j = tree_size_pos t in omega arith

not_equal : (a b : ℕ) → b < a → (a == b) ≡ false
not_equal a b h = ground arith

push_step :
    (nodes : List CstNode) (fuel child lim : ℕ) (stack : List ℕ)
    → (child == lim) ≡ false
    → push_children nodes (suc fuel) child lim stack
      ≡ push_children nodes fuel (child - (node_at nodes child).size) lim (child ∷ stack)
unfolding push_children
push_step nodes fuel child lim stack e = rw (push_children, e) refl

push_end :
    (nodes : List CstNode) (fuel child : ℕ) (stack : List ℕ)
    → push_children nodes (suc fuel) child child stack ≡ stack
unfolding push_children
push_end nodes fuel child stack = rw (push_children, ==_refl child) refl

push_children-numbers :
    (ts : Trees) (fuel : ℕ) (nodes front rest : List CstNode) (stack : List ℕ)
    → nodes ≡ front ++ postorders ts rest
    → trees_size ts < 2 ^ 24
    → trees_count ts < fuel
    → push_children nodes fuel (length (postorders ts rest)) (length rest) stack
      ≡ numbers ts rest stack
push_children-numbers no_trees zero nodes front rest stack e s l = absurd (no_fuel l)
  where
    no_fuel : 0 < 0 → ⊥
    no_fuel h = omega arith
push_children-numbers no_trees (suc fuel) nodes front rest stack e s l =
    push_end nodes fuel (length rest) stack
push_children-numbers (then_tree ts t) zero nodes front rest stack e s l = absurd (no_fuel l)
  where
    no_fuel : suc (trees_count ts) < 0 → ⊥
    no_fuel h = omega arith
push_children-numbers (then_tree ts t) (suc fuel) nodes front rest stack e s l =
    push_step nodes fuel child (length rest) stack (not_equal child (length rest) above)
    ∙ ap (λ c. push_children nodes fuel c (length rest) (child ∷ stack)) next
    ∙ push_children-numbers ts fuel nodes (front ++ postorder t []) rest (child ∷ stack)
        (behind_last nodes front rest ts t e) (omega arith) (omega arith)
  where
    child : ℕ
    child = length (postorder t (postorders ts rest))

    above : length rest < child
    above =
        let i = length-postorder t (postorders ts rest) in
        let j = length-postorders ts rest in let k = tree_size_pos t in omega arith

    next : child - (node_at nodes child).size ≡ length (postorders ts rest)
    next =
        let n = ap (λ k. k.size) (node_at-postorder nodes front (postorders ts rest) t e) in
        let m = size-top_node t in let i = length-postorder t (postorders ts rest) in omega arith

mutual
  unfolding list_nodes

  list_nodes-tree :
      (t : Tree) (fuel : ℕ) (nodes front rest : List CstNode) (stack : List ℕ) (out : List CstNode)
      → nodes ≡ front ++ postorder t rest
      → tree_size t < 2 ^ 24
      → list_nodes nodes (tree_size t + fuel) (length (postorder t rest) ∷ stack) out
        ≡ list_nodes nodes fuel stack (out ++ preorder t)
  list_nodes-tree (tree id b e ts) fuel nodes front rest stack out h s =
      ap (λ f. list_nodes nodes f (suc (length (postorders ts rest)) ∷ stack) out) rounds
      ∙ ap
          (λ n.
            list_nodes nodes (trees_size ts + fuel)
              (push_children nodes (suc (length nodes)) (suc inner - 1) (suc inner - n.size) stack)
              (out ++ n ∷ []))
          (node_at-postorder nodes front rest t h)
      ∙ ap₂
          (λ c l.
            list_nodes nodes (trees_size ts + fuel)
              (push_children nodes (suc (length nodes)) c l stack) (out ++ top_node t ∷ []))
          first_child limit
      ∙ ap (λ k. list_nodes nodes (trees_size ts + fuel) k (out ++ top_node t ∷ []))
          (push_children-numbers ts (suc (length nodes)) nodes (front ++ top_node t ∷ []) rest stack
            behind_top (omega arith) enough)
      ∙ list_nodes-trees ts fuel nodes (front ++ top_node t ∷ []) rest stack
          (out ++ top_node t ∷ []) behind_top (omega arith)
      ∙ ap (list_nodes nodes fuel stack) (append_assoc out (top_node t ∷ []) (preorders ts))
    where
      t : Tree
      t = tree id b e ts

      inner : ℕ
      inner = length (postorders ts rest)

      rounds : suc (trees_size ts) + fuel ≡ suc (trees_size ts + fuel)
      rounds = omega arith

      first_child : suc inner - 1 ≡ inner
      first_child = omega arith

      limit : suc inner - (top_node t).size ≡ length rest
      limit = let m = size-top_node t in let i = length-postorders ts rest in omega arith

      behind_top : nodes ≡ (front ++ top_node t ∷ []) ++ postorders ts rest
      behind_top = h ∙ sym (append_assoc front (top_node t ∷ []) (postorders ts rest))

      enough : trees_count ts < suc (length nodes)
      enough =
          let a = trees_count_le ts in
          let i = length-postorders ts rest in
          let j = length-append front (postorder t rest) in let k = ap length h in omega arith

  list_nodes-trees :
      (ts : Trees) (fuel : ℕ) (nodes front rest : List CstNode) (stack : List ℕ)
      (out : List CstNode)
      → nodes ≡ front ++ postorders ts rest
      → trees_size ts < 2 ^ 24
      → list_nodes nodes (trees_size ts + fuel) (numbers ts rest stack) out
        ≡ list_nodes nodes fuel stack (out ++ preorders ts)
  list_nodes-trees no_trees fuel nodes front rest stack out h s =
      ap₂ (λ f l. list_nodes nodes f stack l) rounds (sym (append-nil out))
    where
      rounds : 0 + fuel ≡ fuel
      rounds = omega arith
  list_nodes-trees (then_tree ts t) fuel nodes front rest stack out h s =
      ap
        (λ f.
          list_nodes nodes f (numbers ts rest (length (postorder t (postorders ts rest)) ∷ stack))
            out)
        rounds
      ∙ list_nodes-trees ts (tree_size t + fuel) nodes (front ++ postorder t []) rest
          (length (postorder t (postorders ts rest)) ∷ stack) out
          (behind_last nodes front rest ts t h) (omega arith)
      ∙ list_nodes-tree t fuel nodes front (postorders ts rest) stack (out ++ preorders ts) h
          (omega arith)
      ∙ ap (list_nodes nodes fuel stack) (append_assoc out (preorders ts) (preorder t))
    where
      rounds : trees_size ts + tree_size t + fuel ≡ trees_size ts + (tree_size t + fuel)
      rounds = omega arith

-- The CST has the nodes of the last tree that the builder holds, in preorder: first the node of the
-- tree itself, whose bytes are now the whole file, then the nodes of its children, unchanged. The tree
-- has fewer than 2 ^ 24 nodes.
pub cst-preorder :
    (file_size id b e : ℕ) (ts : Trees) (rest : List CstNode)
    → tree_size (tree id b e ts) < 2 ^ 24
    → cst file_size (postorder (tree id b e ts) rest)
      ≡ record { id = id; size = tree_size (tree id b e ts); begin = 0; end = file_size }
        ∷ preorders ts
unfolding cst
cst-preorder file_size id b e ts rest s = ap (span_file file_size) (
    ap (λ f. list_nodes nodes f (length nodes ∷ []) []) enough
    ∙ list_nodes-tree (tree id b e ts) (suc (length rest)) nodes [] rest [] [] refl s)
  where
    nodes : List CstNode
    nodes = postorder (tree id b e ts) rest

    enough : suc (length nodes) ≡ tree_size (tree id b e ts) + suc (length rest)
    enough = let i = length-postorders ts rest in omega arith
