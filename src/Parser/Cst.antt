-- ===== src/Parser/Cst.antt =====
-- src/parser/cst.h and cst.cpp: the parser adds the nodes of the syntax tree behind their children, and
-- the CST stores them before their children. A StringSegment is a pair of offsets into the file. The
-- nodes of a builder stand in a list whose head is the back of the vector.
pub mod Trees
pub mod Preorder
pub mod Builder
pub mod Elements
pub mod Forest
pub mod Siblings
pub mod Tests
use wake.Prelude.{
  ℕ, zero, suc, ◌+◌, ◌-◌, ◌%◌, ◌^◌, List, [], ◌∷◌, ◌++◌, Option, none, some, Bool, true, false,
  length, get_elem?, drop, ◌==◌, ltb, if◌then◌else◌,
}

-- CSTNode
pub record CstNode : Type 0 where
  pub id : ℕ
  pub size : ℕ
  pub begin : ℕ
  pub end : ℕ

-- CSTNode::CSTNode, whose size is a bit-field of 24 bits.
abbrev pub cst_node : ℕ → ℕ → ℕ → ℕ → CstNode
cst_node id size begin end = record { id = id; size = size % 2 ^ 24; begin = begin; end = end }

-- What is read behind the ends of the vector, where the source has no value.
abbrev pub no_node : CstNode
no_node = record { id = 0; size = 0; begin = 0; end = 0 }

abbrev pub or_no_node : Option CstNode → CstNode
or_no_node none = no_node
or_no_node (some n) = n

-- nodes.end()[-size]
abbrev pub from_end : ℕ → List CstNode → CstNode
from_end size nodes = or_no_node (get_elem? nodes (size - 1))

-- The loop of addNode over the children, for the begin of the first one and the size.
unfoldable pub sum_children : ℕ → ℕ → ℕ → List CstNode → ℕ × ℕ
sum_children zero b size nodes = (b, size)
sum_children (suc i) b size nodes =
    sum_children i (if i == 0 then (from_end size nodes).begin else b)
      (size + (from_end size nodes).size) nodes

-- nodes.empty() ? 0 : nodes.back().end
abbrev pub back_end : List CstNode → ℕ
back_end [] = 0
back_end (n ∷ nodes) = n.end

-- The overloads of CSTBuilder::addNode.
abbrev pub add_leaf : ℕ → ℕ × ℕ → List CstNode → List CstNode
add_leaf id segment nodes = cst_node id 1 segment.0 segment.1 ∷ nodes

unfoldable pub add_node : ℕ → ℕ → List CstNode → List CstNode
unfolding sum_children
add_node id children nodes =
    let s = sum_children children 0 1 nodes in cst_node id s.1 s.0 (back_end nodes) ∷ nodes

unfoldable pub add_node_begin : ℕ → ℕ × ℕ → ℕ → List CstNode → List CstNode
unfolding sum_children
add_node_begin id begin children nodes =
    let s = sum_children children 0 1 nodes in
    cst_node id s.1 (if ltb begin.0 s.0 then begin.0 else s.0) (back_end nodes) ∷ nodes

unfoldable pub add_node_end : ℕ → ℕ → ℕ × ℕ → List CstNode → List CstNode
unfolding sum_children
add_node_end id children end nodes =
    let s = sum_children children 0 1 nodes in
    cst_node id s.1 s.0 (if ltb (back_end nodes) end.1 then end.1 else back_end nodes) ∷ nodes

unfoldable pub add_node_both : ℕ → ℕ × ℕ → ℕ → ℕ × ℕ → List CstNode → List CstNode
unfolding sum_children
add_node_both id begin children end nodes =
    let s = sum_children children 0 1 nodes in
    if children == 0
    then cst_node id s.1 begin.0 end.1 ∷ nodes
    else cst_node id s.1 (if ltb s.0 begin.0 then s.0 else begin.0)
        (if ltb end.1 (back_end nodes) then back_end nodes else end.1)
      ∷ nodes

-- CSTBuilder::delNodes
unfoldable pub sum_sizes : ℕ → ℕ → List CstNode → ℕ
sum_sizes zero size nodes = size
sum_sizes (suc num) size nodes = sum_sizes num (size + (from_end size nodes).size) nodes

unfoldable pub del_nodes : ℕ → List CstNode → List CstNode
unfolding sum_sizes
del_nodes num nodes = drop (sum_sizes num 1 nodes - 1) nodes

-- builder.nodes[node - 1]
abbrev pub node_at : List CstNode → ℕ → CstNode
node_at nodes node = or_no_node (get_elem? nodes (length nodes - node))

-- The loop of CST::CST that pushes the children of a node, last one first; the stack's top is its head.
unfoldable pub push_children : List CstNode → ℕ → ℕ → ℕ → List ℕ → List ℕ
push_children nodes zero child lim stack = stack
push_children nodes (suc fuel) child lim stack =
    let more = push_children nodes fuel (child - (node_at nodes child).size) lim (child ∷ stack) in
    if child == lim then stack else more

-- The loop of CST::CST over the stack.
unfoldable pub list_nodes : List CstNode → ℕ → List ℕ → List CstNode → List CstNode
unfolding push_children
list_nodes nodes zero stack out = out
list_nodes nodes (suc fuel) [] out = out
list_nodes nodes (suc fuel) (node ∷ stack) out =
    let top = node_at nodes node in
    list_nodes nodes fuel
      (push_children nodes (suc (length nodes)) (node - 1) (node - top.size) stack)
      (out ++ top ∷ [])

-- The first node is made to span the file.
abbrev pub span_file : ℕ → List CstNode → List CstNode
span_file file_size [] = []
span_file file_size (n ∷ nodes) = record n { begin = 0; end = file_size } ∷ nodes

-- CST::CST
unfoldable pub cst : ℕ → List CstNode → List CstNode
unfolding list_nodes
cst file_size [] = []
cst file_size (n ∷ nodes) =
    span_file file_size
      (list_nodes (n ∷ nodes) (suc (length (n ∷ nodes))) (length (n ∷ nodes) ∷ []) [])
