-- ===== src/Parser/Cst/Siblings.antt =====
-- A loop over siblings of src/parser/cst.cpp visits the children of a node.
use wake.Prelude.{
  ℕ, zero, suc, ◌+◌, ◌^◌, ◌<◌, List, [], ◌∷◌, ◌++◌, append_assoc, map, length, length-append, true,
  false, not, ◌&&◌, leb, ◌==◌, if◌then◌else◌, ◌≡◌, refl, sym, ◌∙◌, ap, ap₂, arith,
}
use wake.Parser.Cst.{CstNode}
use wake.Parser.Cst.Trees.{
  Tree, tree, no_trees, then_tree, tree_size, trees_size, trees_count, top_node, preorder,
  tree_size_pos, size-top_node,
}
use wake.Parser.Cst.Elements.{
  CstElement, cst_at, is_node, start_token, next_sibling_node, first_child_node, no_element, visit,
}
use wake.Parser.Cst.Forest.{
  in_order, children, forest, forest_size, preorders-in_order, size-in_order, length-in_order,
  length-preorder, cst_at-preorder,
}

-- Where the first of some trees starts, or where their parent ends.
abbrev first_token : List Tree → ℕ → ℕ
first_token [] end = end
first_token (t ∷ l) end = (top_node t).begin

-- The element in front of some siblings.
abbrev before : List CstNode → List Tree → ℕ → CstElement
before front l end = record {
  node = length front;
  limit = length front + forest_size l;
  token = first_token l end;
  end = end;
}

module _ (nodes : List CstNode) where
  start_token-first :
      (front back : List CstNode) (l : List Tree) (end : ℕ)
      → nodes ≡ front ++ (forest l ++ back)
      → start_token nodes (length front) (length front + forest_size l) end ≡ first_token l end
  start_token-first front back [] end e =
      ap (λ b. if b then end else (cst_at nodes (length front)).begin) (at_limit (length front))
    where
      at_limit : (n : ℕ) → (n == n + 0) ≡ true
      at_limit n = ground arith
  start_token-first front back (t ∷ l) end e =
      ap (λ b. if b then end else (cst_at nodes (length front)).begin)
        (inside (length front) (tree_size t + forest_size l)
          (let i = tree_size_pos t in omega arith))
      ∙ ap (λ n. n.begin)
          (cst_at-preorder nodes front (forest l ++ back) t
            (e ∙ ap (λ k. front ++ k) (append_assoc (preorder t) (forest l) back)))
    where
      inside : (n m : ℕ) → 0 < m → (n == n + m) ≡ false
      inside n m h = ground arith

  beside : (n m : ℕ) → 0 < m → (n == n + m) ≡ false
  beside n m h = ground arith

  at_top :
      (front back : List CstNode) (t : Tree) (l : List Tree)
      → nodes ≡ front ++ (forest (t ∷ l) ++ back)
      → cst_at nodes (length front) ≡ top_node t
  at_top front back t l e =
      cst_at-preorder nodes front (forest l ++ back) t
        (e ∙ ap (λ k. front ++ k) (append_assoc (preorder t) (forest l) back))

  above : (t : Tree) (l : List Tree) → 0 < tree_size t + forest_size l
  above t l = let i = tree_size_pos t in omega arith

  is_node-before :
      (front back : List CstNode) (t : Tree) (l : List Tree) (end : ℕ)
      → nodes ≡ front ++ (forest (t ∷ l) ++ back)
      → is_node nodes (before front (t ∷ l) end) ≡ true
  is_node-before front back t l end e =
      ap₂ (λ b n. not b && leb n.begin (top_node t).begin)
        (beside (length front) (tree_size t + forest_size l) (above t l)) (at_top front back t l e)
      ∙ leb_self (top_node t).begin
    where
      leb_self : (n : ℕ) → (not false && leb n n) ≡ true
      leb_self n = ground arith

  same_element :
      (n m k a b c end : ℕ)
      → n ≡ a
      → m ≡ b
      → k ≡ c
      → ◌≡◌ {A = CstElement}
          (record { node = n; limit = m; token = k; end = end })
          (record { node = a; limit = b; token = c; end = end })
  same_element n m k a b c end p q r =
      ap (λ z. record { node = z; limit = m; token = k; end = end }) p
      ∙ ap (λ z. record { node = a; limit = z; token = k; end = end }) q
      ∙ ap (λ z. record { node = a; limit = b; token = z; end = end }) r

  next_sibling_node-before :
      (front back : List CstNode) (t : Tree) (l : List Tree) (end : ℕ)
      → nodes ≡ front ++ (forest (t ∷ l) ++ back)
      → tree_size t < 2 ^ 24
      → next_sibling_node nodes (before front (t ∷ l) end) ≡ before (front ++ preorder t) l end
  unfolding next_sibling_node
  next_sibling_node-before front back t l end e s =
      rw (next_sibling_node, is_node-before front back t l end e)
        (same_element _ _ _ _ _ _ end moved same_limit (
          ap₂ (λ n m. start_token nodes n m end) moved same_limit
          ∙ start_token-first (front ++ preorder t) back l end (e ∙ regrouped)))
    where
      moved : length front + (cst_at nodes (length front)).size ≡ length (front ++ preorder t)
      moved =
          let a = ap (λ n. n.size) (at_top front back t l e) in
          let b = size-top_node t in
          let c = length-append front (preorder t) in let d = length-preorder t in omega arith

      same_limit :
          length front + (tree_size t + forest_size l)
          ≡ length (front ++ preorder t) + forest_size l
      same_limit =
          let c = length-append front (preorder t) in let d = length-preorder t in omega arith

      regrouped : front ++ (forest (t ∷ l) ++ back) ≡ (front ++ preorder t) ++ (forest l ++ back)
      regrouped =
          ap (λ k. front ++ k) (append_assoc (preorder t) (forest l) back)
          ∙ sym (append_assoc front (preorder t) (forest l ++ back))

  visit-before :
      (l : List Tree) (fuel : ℕ) (front back : List CstNode) (end : ℕ)
      → nodes ≡ front ++ (forest l ++ back)
      → forest_size l < 2 ^ 24
      → length l < fuel
      → visit nodes fuel (before front l end) ≡ map top_node l
  unfolding visit
  visit-before l zero front back end e s h = absurd (no_fuel h)
    where
      no_fuel : length l < 0 → ⊥
      no_fuel k = omega arith
  visit-before [] (suc fuel) front back end e s h =
      ap
        (λ b.
          if b
          then []
          else cst_at nodes (length front)
            ∷ visit nodes fuel (next_sibling_node nodes (before front [] end)))
        (at_end (length front) end)
    where
      at_end : (n k : ℕ) → ((n == n + 0) && leb k k) ≡ true
      at_end n k = ground arith
  visit-before (t ∷ l) (suc fuel) front back end e s h =
      ap
        (λ b.
          if b && leb end (top_node t).begin
          then []
          else cst_at nodes (length front)
            ∷ visit nodes fuel (next_sibling_node nodes (before front (t ∷ l) end)))
        (beside (length front) (tree_size t + forest_size l) (above t l))
      ∙ ap₂ ◌∷◌ (at_top front back t l e) (
          ap (visit nodes fuel) (next_sibling_node-before front back t l end e (omega arith))
          ∙ visit-before l fuel (front ++ preorder t) back end
              (e
                ∙ ap (λ k. front ++ k) (append_assoc (preorder t) (forest l) back)
                ∙ sym (append_assoc front (preorder t) (forest l ++ back)))
              (omega arith) (omega arith))

  first_child_node_leaf :
      (e : CstElement)
      → is_node nodes e ≡ true
      → ((cst_at nodes e.node).size == 1) ≡ true
      → first_child_node nodes e ≡ no_element nodes
  unfolding first_child_node
  first_child_node_leaf e q z = rw (first_child_node, q, z) refl

  first_child_node_inner :
      (e : CstElement)
      → is_node nodes e ≡ true
      → ((cst_at nodes e.node).size == 1) ≡ false
      → first_child_node nodes e ≡ record {
        node = e.node + 1;
        limit = e.node + (cst_at nodes e.node).size;
        token = (cst_at nodes (e.node + 1)).begin;
        end = (cst_at nodes e.node).end;
      }
  unfolding first_child_node
  first_child_node_inner e q z = rw (first_child_node, q, z) refl

  visit_nothing : (fuel : ℕ) → 0 < fuel → visit nodes fuel (no_element nodes) ≡ []
  unfolding visit
  visit_nothing zero h = absurd (no_fuel h)
    where
      no_fuel : 0 < 0 → ⊥
      no_fuel k = omega arith
  visit_nothing (suc fuel) h = refl

  size_at :
      (t : Tree) (e : CstElement) (front back : List CstNode)
      → nodes ≡ front ++ (preorder t ++ back)
      → e.node ≡ length front
      → tree_size t < 2 ^ 24
      → (cst_at nodes e.node).size ≡ tree_size t
  size_at t e front back h p s =
      ap (λ n. (cst_at nodes n).size) p
      ∙ ap (λ n. n.size) (cst_at-preorder nodes front back t h)
      ∙ size-top_node t

  -- From an element at the node of a tree, the loop from firstChildNode on, with nextSiblingNode,
  -- visits the nodes of the children in their order and ends, in as many rounds as there are children,
  -- if the tree has fewer nodes than its size field can count.
  pub visit-first_child_node :
      (t : Tree) (e : CstElement) (fuel : ℕ) (front back : List CstNode)
      → nodes ≡ front ++ (preorder t ++ back)
      → e.node ≡ length front
      → is_node nodes e ≡ true
      → tree_size t < 2 ^ 24
      → trees_count (children t) < fuel
      → visit nodes fuel (first_child_node nodes e) ≡ map top_node (in_order (children t))
  visit-first_child_node (tree id b f no_trees) e fuel front back h p q s l =
      ap (visit nodes fuel) (first_child_node_leaf e q one) ∙ visit_nothing fuel l
    where
      one : ((cst_at nodes e.node).size == 1) ≡ true
      one = ap (λ n. n == 1) (size_at (tree id b f no_trees) e front back h p s)
  visit-first_child_node (tree id b f (then_tree ts t)) e fuel front back h p q s l =
      ap (visit nodes fuel) (
        first_child_node_inner e q more
        ∙ same_element _ _ _ _ _ _ _ (next e.node (length front) p ∙ sym one_more) same_limit token)
      ∙ visit-before kids fuel (front ++ top_node whole ∷ []) back _ spread
          (let i = size-in_order (then_tree ts t) in omega arith)
          (let i = length-in_order (then_tree ts t) in omega arith)
    where
      whole : Tree
      whole = tree id b f (then_tree ts t)

      kids : List Tree
      kids = in_order (then_tree ts t)

      one_more : length (front ++ top_node whole ∷ []) ≡ length front + 1
      one_more = length-append front (top_node whole ∷ [])

      next : (n m : ℕ) → n ≡ m → n + 1 ≡ m + 1
      next n m r = omega arith

      more : ((cst_at nodes e.node).size == 1) ≡ false
      more =
          ap (λ n. n == 1) (size_at whole e front back h p s)
          ∙ not_one (trees_size ts) (tree_size t) (tree_size_pos t)
        where
          not_one : (n m : ℕ) → 0 < m → (suc (n + m) == 1) ≡ false
          not_one n m z = ground arith

      same_limit :
          e.node + (cst_at nodes e.node).size
          ≡ length (front ++ top_node whole ∷ []) + forest_size kids
      same_limit =
          let a = size_at whole e front back h p s in
          let i = size-in_order (then_tree ts t) in let j = one_more in omega arith

      spread : nodes ≡ (front ++ top_node whole ∷ []) ++ (forest kids ++ back)
      spread =
          h
          ∙ ap (λ k. front ++ ((top_node whole ∷ k) ++ back)) (preorders-in_order (then_tree ts t))
          ∙ sym (append_assoc front (top_node whole ∷ []) (forest kids ++ back))

      token : (cst_at nodes (e.node + 1)).begin ≡ first_token kids ((cst_at nodes e.node).end)
      token =
          ap (λ n. (cst_at nodes n).begin) (next e.node (length front) p ∙ sym one_more)
          ∙ sym (
              ap
                (λ c.
                  if c
                  then (cst_at nodes e.node).end
                  else (cst_at nodes (length (front ++ top_node whole ∷ []))).begin)
                (beside (length (front ++ top_node whole ∷ [])) (forest_size kids) (
                  let i = size-in_order (then_tree ts t) in
                  let j = tree_size_pos t in omega arith)))
          ∙ start_token-first (front ++ top_node whole ∷ []) back kids ((cst_at nodes e.node).end)
              spread
