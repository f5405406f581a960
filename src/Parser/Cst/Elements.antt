-- ===== src/Parser/Cst/Elements.antt =====
-- CSTElement of src/parser/cst.h and cst.cpp: a place in the CST's nodes and in the bytes of the file.
-- `next_token` stands for RankSelect1Map::next1 on the starts of the tokens.
use wake.Prelude.{
  ℕ, zero, suc, ◌+◌, List, [], ◌∷◌, Bool, ◌&&◌, not, get_elem?, length, leb, ◌==◌, if◌then◌else◌,
}
use wake.Parser.Cst.{CstNode, or_no_node}

pub record CstElement : Type 0 where
  pub node : ℕ
  pub limit : ℕ
  pub token : ℕ
  pub end : ℕ

module _ (nodes : List CstNode) where
  -- cst->nodes[node]
  abbrev pub cst_at : ℕ → CstNode
  cst_at node = or_no_node (get_elem? nodes node)

  abbrev pub root_element : ℕ → CstElement
  root_element file_size = record { node = 0; limit = length nodes; token = 0; end = file_size }

  abbrev pub is_empty : CstElement → Bool
  is_empty e = e.node == e.limit && leb e.end e.token

  abbrev pub is_node : CstElement → Bool
  is_node e = not (e.node == e.limit) && leb (cst_at e.node).begin e.token

  unfoldable pub next_sibling_element : (ℕ → ℕ) → CstElement → CstElement
  next_sibling_element next_token e =
      if is_node e
      then record e { node = e.node + (cst_at e.node).size; token = (cst_at e.node).end }
      else record e { token = next_token (suc e.token) }

  -- The token where an element at a node starts.
  abbrev pub start_token : ℕ → ℕ → ℕ → ℕ
  start_token node limit end = if node == limit then end else (cst_at node).begin

  unfoldable pub next_sibling_node : CstElement → CstElement
  next_sibling_node e =
      if is_node e
      then record e {
        node = e.node + (cst_at e.node).size;
        token = start_token (e.node + (cst_at e.node).size) e.limit e.end;
      }
      else record e { token = start_token e.node e.limit e.end }

  -- What tokens have for children.
  abbrev pub no_element : CstElement
  no_element = record { node = 0; limit = 0; token = 0; end = 0 }

  unfoldable pub first_child_element : CstElement → CstElement
  first_child_element e =
      if is_node e
      then record {
        node = e.node + 1;
        limit = e.node + (cst_at e.node).size;
        token = (cst_at e.node).begin;
        end = (cst_at e.node).end;
      }
      else no_element

  unfoldable pub first_child_node : CstElement → CstElement
  first_child_node e =
      if not (is_node e)
      then no_element
      else if (cst_at e.node).size == 1
      then no_element
      else record {
        node = e.node + 1;
        limit = e.node + (cst_at e.node).size;
        token = (cst_at (e.node + 1)).begin;
        end = (cst_at e.node).end;
      }

  -- The nodes that a loop over siblings visits.
  unfoldable pub visit : ℕ → CstElement → List CstNode
  unfolding next_sibling_node
  visit zero e = []
  visit (suc fuel) e =
      let rest = visit fuel (next_sibling_node e) in if is_empty e then [] else cst_at e.node ∷ rest
