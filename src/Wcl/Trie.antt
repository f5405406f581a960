-- ===== src/Wcl/Trie.antt =====
-- `wcl::trie` of src/wcl/trie.h over a type of keys with an equality test. Indices into `nodes` are
-- those of the vector; the code never passes one that is out of range, where the model finds nothing.
pub mod Bounds
pub mod Growth
pub mod Lookup
pub mod Tests
use wake.Prelude.{
  ℕ, zero, suc, List, [], ◌∷◌, ◌++◌, Bool, true, false, Option, none, some, length, get_elem?, ◌==◌,
  not, if◌then◌else◌,
}

pub record TrieNode (K V : Type 0) : Type 0 where
  pub child_indexes : List ℕ
  pub key : K
  pub value : Option V

pub record Trie (K V : Type 0) : Type 0 where
  pub nodes : List (TrieNode K V)
  pub starts : List ℕ
  pub empty_seq : Option V

module _ (K V : Type 0) (same_key : K → K → Bool) where
  -- The first index of a list whose node has the key.
  unfoldable pub matching : List (TrieNode K V) → List ℕ → K → Option ℕ
  matching nodes [] key = none
  matching nodes (index ∷ rest) key =
      let later = matching nodes rest key in
      elim (get_elem? nodes index) [
        | none ↦ later
        | some node ↦ if same_key key node.key then some index else later
      ]

  abbrev pub matching_start : Trie K V → K → Option ℕ
  matching_start t key = matching t.nodes t.starts key

  unfoldable pub matching_child : Trie K V → ℕ → K → Option ℕ
  unfolding matching
  matching_child t pindex key = elim (get_elem? t.nodes pindex) [
    | none ↦ none
    | some node ↦ matching t.nodes node.child_indexes key
  ]

  -- nodes[i] with a change.
  unfoldable pub change_node :
      ℕ → (TrieNode K V → TrieNode K V) → List (TrieNode K V) → List (TrieNode K V)
  change_node i f [] = []
  change_node zero f (n ∷ nodes) = f n ∷ nodes
  change_node (suc i) f (n ∷ nodes) = n ∷ change_node i f nodes

  abbrev new_node : K → TrieNode K V
  new_node key = record { child_indexes = []; key = key; value = none }

  abbrev set_value : V → TrieNode K V → TrieNode K V
  set_value v n = record n { value = some v }

  abbrev add_child : ℕ → TrieNode K V → TrieNode K V
  add_child i n = record n { child_indexes = n.child_indexes ++ i ∷ [] }

  -- The node of the first key, which is made where there is none.
  unfoldable pub start_at : Trie K V → K → ℕ × Trie K V
  start_at t key = elim (matching_start t key) [
    | some root ↦ (root, t)
    | none ↦ (
      length t.nodes,
      record t { nodes = t.nodes ++ new_node key ∷ []; starts = t.starts ++ length t.nodes ∷ [] },
    )
  ]

  -- One round of the loop: the child of the key, which is made where there is none.
  unfoldable pub step_to : Trie K V → ℕ → K → ℕ × Trie K V
  unfolding matching_child change_node
  step_to t root key = elim (matching_child t root key) [
    | some child ↦ (child, t)
    | none ↦
        let grown = t.nodes ++ new_node key ∷ [] in
        (
          length t.nodes,
          record t {
            nodes =
                if not (length t.nodes == root)
                then change_node root (add_child (length t.nodes)) grown
                else grown;
          },
        )
  ]

  unfoldable pub walk_keys : Trie K V → ℕ → List K → ℕ × Trie K V
  unfolding step_to
  walk_keys t root [] = (root, t)
  walk_keys t root (key ∷ keys) = walk_keys (step_to t root key).1 (step_to t root key).0 keys

  unfoldable pub move_emplace : List K → V → Trie K V → Trie K V
  unfolding start_at walk_keys change_node
  move_emplace [] v t = record t { empty_seq = some v }
  move_emplace (key ∷ keys) v t =
      let (root, started) = start_at t key in
      let (last, grown) = walk_keys started root keys in
      record grown { nodes = change_node last (set_value v) grown.nodes }

  -- The value of a node, if there is one.
  unfoldable pub value_at : Trie K V → ℕ → Option V
  value_at t i = elim (get_elem? t.nodes i) [ none ↦ none | some node ↦ node.value ]

  -- What is kept of the best match so far, `out` and `out_iter`: its value and the keys behind it.
  unfoldable pub better : Option V → List K → Option V × List K → Option V × List K
  better none rest best = best
  better (some v) rest best = (some v, rest)

  unfoldable pub descend : Trie K V → ℕ → List K → Option V × List K → Option V × List K
  unfolding matching_child value_at better
  descend t root [] best = best
  descend t root (key ∷ keys) best = elim (matching_child t root key) [
    | none ↦ best
    | some child ↦ descend t child keys (better (value_at t child) keys best)
  ]

  -- The value found, and the keys from the iterator that is returned on.
  unfoldable pub find_max : Trie K V → List K → Option V × List K
  unfolding descend value_at better matching
  find_max t [] = (t.empty_seq, [])
  find_max t (key ∷ keys) = elim (matching_start t key) [
    | none ↦ (none, keys)
    | some root ↦ descend t root keys (better (value_at t root) keys (none, key ∷ keys))
  ]

  unfoldable pub find : Trie K V → List K → Option V
  unfolding find_max
  find t keys = elim (find_max t keys).1 [ [] ↦ (find_max t keys).0 | k ∷ ks ↦ none ]
