-- ===== src/Wcl/Diff.antt =====
-- `wcl::diff` of src/wcl/diff.h: the search for an edit script from one sequence to another. Iterators
-- are positions, a read behind the end gives nothing. `top` stands for std::priority_queue: it takes
-- one edge out of the edges that were pushed. Costs are whole numbers, which a double holds exactly.
pub mod Paths
pub mod Measure
pub mod Queue
pub mod Search
pub mod Script
pub mod Tests
use wake.Prelude.{
  ℕ, zero, suc, ◌+◌, List, [], ◌∷◌, ◌++◌, Bool, true, false, not, ◌&&◌, ◌||◌, Option, none, some,
  length, get_elem?, ◌==◌, if◌then◌else◌,
}

-- diff_type_t
pub data DiffType : Type 0 where
  add sub keep : DiffType

-- diff_t
pub record DiffItem (T : Type 0) : Type 0 where
  pub kind : DiffType
  pub value : T

-- edge_t, by its two constructors: the position it starts at, and the edge before it.
pub data Edge : Type 0 where
  first_edge : DiffType → ℕ → ℕ → Edge
  next_edge : DiffType → Edge → Edge

abbrev pub type_cost : DiffType → ℕ
type_cost keep = 0
type_cost add = 1
type_cost sub = 1

abbrev pub kind_of : Edge → DiffType
kind_of (first_edge kind i j) = kind
kind_of (next_edge kind prev) = kind

abbrev pub move1 : DiffType → ℕ → ℕ
move1 add i = i
move1 sub i = suc i
move1 keep i = suc i

abbrev pub move2 : DiffType → ℕ → ℕ
move2 add j = suc j
move2 sub j = j
move2 keep j = suc j

-- advance1 and advance2, where an edge leads.
abbrev pub advance1 : Edge → ℕ
advance1 (first_edge kind i j) = move1 kind i
advance1 (next_edge kind prev) = move1 kind (advance1 prev)

abbrev pub advance2 : Edge → ℕ
advance2 (first_edge kind i j) = move2 kind j
advance2 (next_edge kind prev) = move2 kind (advance2 prev)

-- from()
abbrev pub from1 : Edge → ℕ
from1 (first_edge kind i j) = i
from1 (next_edge kind prev) = advance1 prev

abbrev pub from2 : Edge → ℕ
from2 (first_edge kind i j) = j
from2 (next_edge kind prev) = advance2 prev

unfoldable pub cost : Edge → ℕ
cost (first_edge kind i j) = type_cost kind
cost (next_edge kind prev) = cost prev + type_cost kind

-- visited.count
abbrev pub seen : ℕ → ℕ → List (ℕ × ℕ) → Bool
seen i j [] = false
seen i j (v ∷ visited) = (i == v.0 && j == v.1) || seen i j visited

module _ (T : Type 0) (equal : T → T → Bool) (xs ys : List T) where
  -- *iter1 == *iter2, where neither is at its end.
  unfoldable pub same_at : ℕ → ℕ → Bool
  same_at i j = elim (get_elem? xs i) [
    | none ↦ false
    | some x ↦ elim (get_elem? ys j) [ none ↦ false | some y ↦ equal x y ]
  ]

  abbrev pub item : DiffType → ℕ → ℕ → Option (DiffItem T)
  item add i j = elim (get_elem? ys j) [
    | none ↦ none
    | some y ↦ some (record { kind = add; value = y })
  ]
  item sub i j = elim (get_elem? xs i) [
    | none ↦ none
    | some x ↦ some (record { kind = sub; value = x })
  ]
  item keep i j = elim (get_elem? xs i) [
    | none ↦ none
    | some x ↦ some (record { kind = keep; value = x })
  ]

  abbrev pub push_item :
      Option (DiffItem T) → Option (List (DiffItem T)) → Option (List (DiffItem T))
  push_item none out = none
  push_item (some d) none = none
  push_item (some d) (some out) = some (out ++ d ∷ [])

  -- populate_out, which pushes the items from the last edge back and reverses them.
  unfoldable pub populate_out : Edge → Option (List (DiffItem T))
  populate_out (first_edge kind i j) = push_item (item kind i j) (some [])
  populate_out (next_edge kind prev) =
      push_item (item kind (advance1 prev) (advance2 prev)) (populate_out prev)

  abbrev pub at_end1 : ℕ → Bool
  at_end1 i = i == length xs

  abbrev pub at_end2 : ℕ → Bool
  at_end2 j = j == length ys

  abbrev pub push_if : Bool → Edge → List Edge → List Edge
  push_if true e q = e ∷ q
  push_if false e q = q

  abbrev pub can_keep : ℕ → ℕ → Bool
  can_keep i j = not (at_end2 j) && not (at_end1 i) && same_at i j

  -- The first edges.
  unfoldable pub start_edges : List Edge
  unfolding same_at
  start_edges = push_if (can_keep 0 0) (first_edge keep 0 0) (
      push_if (not (at_end1 0)) (first_edge sub 0 0)
        (push_if (not (at_end2 0)) (first_edge add 0 0) []))

  -- The edges out of the position that an edge leads to.
  unfoldable pub push_edges : Edge → List Edge → List Edge
  unfolding same_at
  push_edges e q =
      if can_keep (advance1 e) (advance2 e)
      then next_edge keep e ∷ q
      else push_if (not (at_end1 (advance1 e))) (next_edge sub e)
          (push_if (not (at_end2 (advance2 e))) (next_edge add e) q)

  module _ (top : List Edge → Option (Edge × List Edge)) where
    -- The loop; nothing is a `top` of an empty queue, or the end of the fuel.
    unfoldable pub search_loop : ℕ → List Edge → List (ℕ × ℕ) → Option (List (DiffItem T))
    unfolding populate_out push_edges
    search_loop zero q visited = none
    search_loop (suc fuel) q visited = elim (top q) [
      | none ↦ none
      | some r ↦ elim (seen (advance1 r.0) (advance2 r.0) visited) [
        | true ↦ search_loop fuel r.1 visited
        | false ↦ elim (at_end1 (advance1 r.0) && at_end2 (advance2 r.0)) [
          | true ↦ populate_out r.0
          | false ↦ search_loop fuel (push_edges r.0 r.1) ((advance1 r.0, advance2 r.0) ∷ visited)
        ]
      ]
    ]

    unfoldable pub diff : ℕ → Option (List (DiffItem T))
    unfolding start_edges search_loop
    diff fuel = if at_end1 0 && at_end2 0 then some [] else search_loop fuel start_edges []
