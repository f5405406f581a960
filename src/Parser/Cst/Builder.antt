-- ===== src/Parser/Cst/Builder.antt =====
-- CSTBuilder of src/parser/cst.cpp keeps the nodes of trees, each behind its children.
use wake.Prelude.{
  ℕ, ◌%◌, suc, ◌+◌, ◌-◌, ◌^◌, ◌<◌, min, max, List, [], ◌∷◌, ◌++◌, append_assoc, length,
  length-append, get_elem?, drop, false, ltb, ◌==◌, if◌then◌else◌, ◌≡◌, refl, sym, ◌∙◌, ap, ap₂,
  arith,
}
use wake.Parser.Cst.{
  CstNode, cst_node, from_end, or_no_node, sum_children, sum_sizes, back_end, add_leaf, add_node,
  add_node_begin, add_node_end, add_node_both, del_nodes,
}
use wake.Parser.Cst.Trees.{
  Tree, Trees, tree, no_trees, then_tree, tree_size, trees_size, trees_count, top_node, postorder,
  postorders, length-postorder, length-postorders, postorder-append, postorders-append,
  size-top_node, get_elem?-postorder,
}

-- Where the first of some trees begins.
abbrev pub first_begin : ℕ → Trees → ℕ
first_begin b no_trees = b
first_begin b (then_tree no_trees t) = (top_node t).begin
first_begin b (then_tree (then_tree ts u) t) = first_begin b (then_tree ts u)

from_end-postorder :
    (front rest : List CstNode) (t : Tree)
    → from_end (suc (length front)) (front ++ postorder t rest) ≡ top_node t
from_end-postorder front rest t =
    ap (λ i. or_no_node (get_elem? (front ++ postorder t rest) i)) (one_less (length front))
    ∙ get_elem?-postorder front rest t
  where
    one_less : (n : ℕ) → suc n - 1 ≡ n
    one_less n = omega arith

not_zero : (n : ℕ) → (suc n == 0) ≡ false
not_zero n = ground arith

-- The begin after one more child, which is the first one if none is left.
begin_step :
    (b : ℕ) (ts : Trees) (t : Tree)
    → first_begin (if trees_count ts == 0 then (top_node t).begin else b) ts
      ≡ first_begin b (then_tree ts t)
begin_step b no_trees t = refl
begin_step b (then_tree ts u) t = ap (λ c. first_begin c (then_tree ts u)) not_first
  where
    not_first : (if suc (trees_count ts) == 0 then (top_node t).begin else b) ≡ b
    not_first = ap (λ c. if c then (top_node t).begin else b) (not_zero (trees_count ts))

front_size :
    (front rest : List CstNode) (t : Tree)
    → tree_size t < 2 ^ 24
    → suc (length front) + (from_end (suc (length front)) (front ++ postorder t rest)).size
      ≡ suc (length (front ++ postorder t []))
front_size front rest t s =
    let a = ap (λ n. n.size) (from_end-postorder front rest t) in
    let b = size-top_node t in
    let c = length-append front (postorder t []) in
    let d = length-postorder t [] in let z : length {A = CstNode} [] ≡ 0 = refl in omega arith

regroup :
    (front rest : List CstNode) (ts : Trees) (t : Tree)
    → front ++ postorders (then_tree ts t) rest ≡ (front ++ postorder t []) ++ postorders ts rest
regroup front rest ts t =
    ap (λ l. front ++ l) (sym (postorder-append t [] (postorders ts rest)))
    ∙ sym (append_assoc front (postorder t []) (postorders ts rest))

total :
    (front : List CstNode) (ts : Trees) (t : Tree)
    → suc (length (front ++ postorder t [])) + trees_size ts
      ≡ suc (length front) + trees_size (then_tree ts t)
total front ts t =
    let c = length-append front (postorder t []) in
    let d = length-postorder t [] in let z : length {A = CstNode} [] ≡ 0 = refl in omega arith

sum_children-postorders :
    (ts : Trees) (b : ℕ) (front rest : List CstNode)
    → trees_size ts < 2 ^ 24
    → sum_children (trees_count ts) b (suc (length front)) (front ++ postorders ts rest)
      ≡ (first_begin b ts, suc (length front) + trees_size ts)
unfolding sum_children
sum_children-postorders no_trees b front rest s = ap (λ n. (b, n)) (omega arith)
sum_children-postorders (then_tree ts t) b front rest s =
    ap₂ (λ c n. sum_children (trees_count ts) c n (front ++ postorders (then_tree ts t) rest))
      (ap (λ n. if trees_count ts == 0 then n.begin else b)
        (from_end-postorder front (postorders ts rest) t))
      (front_size front (postorders ts rest) t (omega arith))
    ∙ ap
        (sum_children (trees_count ts) (if trees_count ts == 0 then (top_node t).begin else b)
          (suc (length (front ++ postorder t []))))
        (regroup front rest ts t)
    ∙ sum_children-postorders ts _ (front ++ postorder t []) rest (omega arith)
    ∙ ap₂ (λ c n. (c, n)) (begin_step b ts t) (total front ts t)

sum_sizes-postorders :
    (ts : Trees) (front rest : List CstNode)
    → trees_size ts < 2 ^ 24
    → sum_sizes (trees_count ts) (suc (length front)) (front ++ postorders ts rest)
      ≡ suc (length front) + trees_size ts
unfolding sum_sizes
sum_sizes-postorders no_trees front rest s = omega arith
sum_sizes-postorders (then_tree ts t) front rest s =
    ap (λ n. sum_sizes (trees_count ts) n (front ++ postorders (then_tree ts t) rest))
      (front_size front (postorders ts rest) t (omega arith))
    ∙ ap (sum_sizes (trees_count ts) (suc (length (front ++ postorder t []))))
        (regroup front rest ts t)
    ∙ sum_sizes-postorders ts (front ++ postorder t []) rest (omega arith)
    ∙ total front ts t

summed :
    (ts : Trees) (rest : List CstNode)
    → trees_size ts < 2 ^ 24
    → sum_children (trees_count ts) 0 1 (postorders ts rest)
      ≡ (first_begin 0 ts, suc (trees_size ts))
summed ts rest s =
    sum_children-postorders ts 0 [] rest s ∙ ap (λ n. (first_begin 0 ts, n)) (omega arith)

if-min : (a b : ℕ) → (if ltb a b then a else b) ≡ min a b
if-min a b = ground arith

if-max : (a b : ℕ) → (if ltb a b then b else a) ≡ max a b
if-max a b = ground arith

-- Where the last of some trees ends; where there is none, the node before them ends there, if any.
abbrev pub last_end : List CstNode → Trees → ℕ
last_end [] no_trees = 0
last_end (n ∷ rest) no_trees = n.end
last_end rest (then_tree ts (tree id b e us)) = e

-- What a node with both segments covers.
abbrev pub wide_begin : ℕ → Trees → ℕ
wide_begin b no_trees = b
wide_begin b (then_tree ts t) = min (first_begin 0 (then_tree ts t)) b

abbrev pub wide_end : ℕ → List CstNode → Trees → ℕ
wide_end e rest no_trees = e
wide_end e rest (then_tree ts t) = max e (last_end rest (then_tree ts t))

back_end-postorders :
    (ts : Trees) (rest : List CstNode) → back_end (postorders ts rest) ≡ last_end rest ts
back_end-postorders no_trees [] = refl
back_end-postorders no_trees (n ∷ rest) = refl
back_end-postorders (then_tree ts (tree id b e us)) rest = refl

cst_node-fits :
    (id n b e : ℕ)
    → n < 2 ^ 24
    → cst_node id n b e ≡ record { id = id; size = n; begin = b; end = e }
cst_node-fits id n b e h = ap (λ m. record { id = id; size = m; begin = b; end = e }) (small n h)
  where
    small : (n : ℕ) → n < 2 ^ 24 → n % 2 ^ 24 ≡ n
    small n h = omega arith

-- The node of a tree over some trees, from the numbers that addNode has.
node_over :
    (id n b c e f : ℕ) (ts : Trees) (rest : List CstNode)
    → suc (trees_size ts) < 2 ^ 24
    → n ≡ suc (trees_size ts)
    → b ≡ c
    → e ≡ f
    → cst_node id n b e ∷ postorders ts rest ≡ postorder (tree id c f ts) rest
node_over id n b c e f ts rest s p q r =
    ap (λ k. k ∷ postorders ts rest)
      (ap (λ m. cst_node id m b e) p
        ∙ cst_node-fits id (suc (trees_size ts)) b e s
        ∙ ap₂ (λ x y. record { id = id; size = suc (trees_size ts); begin = x; end = y }) q r)

add_node_both-postorder :
    (id : ℕ) (ts : Trees) (begin end : ℕ × ℕ) (rest : List CstNode)
    → suc (trees_size ts) < 2 ^ 24
    → add_node_both id begin (trees_count ts) end (postorders ts rest)
      ≡ postorder (tree id (wide_begin begin.0 ts) (wide_end end.1 rest ts) ts) rest
unfolding add_node_both sum_children
add_node_both-postorder id no_trees begin end rest s = refl
add_node_both-postorder id (then_tree ts t) begin end rest s =
    ap (λ c. if c then cst_node id sum.1 begin.0 end.1 ∷ nodes else widened)
      (not_zero (trees_count ts))
    ∙ node_over id sum.1 _ _ _ _ (then_tree ts t) rest s (ap (λ p. p.1) found)
        (if-min sum.0 begin.0 ∙ ap (λ p. min p.0 begin.0) found)
        (if-max end.1 (back_end nodes) ∙ ap (max end.1) (back_end-postorders (then_tree ts t) rest))
  where
    nodes : List CstNode
    nodes = postorders (then_tree ts t) rest

    sum : ℕ × ℕ
    sum = sum_children (trees_count (then_tree ts t)) 0 1 nodes

    found : sum ≡ (first_begin 0 (then_tree ts t), suc (trees_size (then_tree ts t)))
    found = summed (then_tree ts t) rest (omega arith)

    widened : List CstNode
    widened =
        cst_node id sum.1 (if ltb sum.0 begin.0 then sum.0 else begin.0)
          (if ltb end.1 (back_end nodes) then back_end nodes else end.1)
        ∷ nodes

-- Each of the five overloads of addNode makes one tree of the last trees that the builder holds, in
-- their order and as many as it is told, none included; the one for a segment makes a leaf that covers
-- the segment. Without segments the tree covers the bytes from the begin of the first tree, or 0, to
-- the end of the last one, or of the node before. A begin segment moves the begin back, an end segment
-- the end forth, where they lie outside; with both and no trees the tree covers the segments. The tree
-- has fewer than 2 ^ 24 nodes.
pub add_nodes-postorder :
    (id : ℕ) (ts : Trees) (begin end : ℕ × ℕ) (rest : List CstNode)
    → suc (trees_size ts) < 2 ^ 24
    → (add_leaf id begin rest ≡ postorder (tree id begin.0 begin.1 no_trees) rest)
      × (add_node id (trees_count ts) (postorders ts rest)
          ≡ postorder (tree id (first_begin 0 ts) (last_end rest ts) ts) rest)
      × (add_node_begin id begin (trees_count ts) (postorders ts rest)
          ≡ postorder (tree id (min begin.0 (first_begin 0 ts)) (last_end rest ts) ts) rest)
      × (add_node_end id (trees_count ts) end (postorders ts rest)
          ≡ postorder (tree id (first_begin 0 ts) (max (last_end rest ts) end.1) ts) rest)
      × (add_node_both id begin (trees_count ts) end (postorders ts rest)
          ≡ postorder (tree id (wide_begin begin.0 ts) (wide_end end.1 rest ts) ts) rest)
unfolding add_node add_node_begin add_node_end
add_nodes-postorder id ts begin end rest s =
    let nodes : List CstNode = postorders ts rest in
    let sum : ℕ × ℕ = sum_children (trees_count ts) 0 1 nodes in
    let found : sum ≡ (first_begin 0 ts, suc (trees_size ts)) = summed ts rest (omega arith) in
    let size : sum.1 ≡ suc (trees_size ts) = ap (λ p. p.1) found in
    let first : sum.0 ≡ first_begin 0 ts = ap (λ p. p.0) found in
    let last : back_end nodes ≡ last_end rest ts = back_end-postorders ts rest in
    (
      refl,
      node_over id sum.1 _ _ _ _ ts rest s size first last,
      node_over id sum.1 _ _ _ _ ts rest s size (if-min begin.0 sum.0 ∙ ap (min begin.0) first)
          last,
      node_over id sum.1 _ _ _ _ ts rest s size first
          (if-max (back_end nodes) end.1 ∙ ap (λ n. max n end.1) last),
      add_node_both-postorder id ts begin end rest s,
    )

-- delNodes removes as many of the last trees that the builder holds as it is told, and nothing else, if
-- they have fewer than 2 ^ 24 nodes.
pub del_nodes-postorders :
    (ts : Trees) (rest : List CstNode)
    → trees_size ts < 2 ^ 24
    → del_nodes (trees_count ts) (postorders ts rest) ≡ rest
unfolding del_nodes
del_nodes-postorders ts rest s =
    ap₂ (λ n l. drop n l) (counted (sum_sizes-postorders ts [] rest s))
      (sym (postorders-append ts [] rest))
    ∙ drop_front (postorders ts []) rest
  where
    counted :
        sum_sizes (trees_count ts) 1 (postorders ts rest) ≡ 1 + trees_size ts
        → sum_sizes (trees_count ts) 1 (postorders ts rest) - 1 ≡ length (postorders ts [])
    counted e =
        let i = length-postorders ts [] in let z : length {A = CstNode} [] ≡ 0 = refl in omega arith

    drop_front : (xs ys : List CstNode) → drop (length xs) (xs ++ ys) ≡ ys
    drop_front [] [] = refl
    drop_front [] (y ∷ ys) = refl
    drop_front (x ∷ xs) ys = drop_front xs ys
