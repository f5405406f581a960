-- ===== src/Wcl/Trie/Bounds.antt =====
-- The indices that the trie of src/wcl/trie.h keeps.
use wake.Prelude.{
  ℕ, zero, suc, ◌+◌, ◌<◌, ◌≤◌, List, [], ◌∷◌, ◌++◌, Bool, true, false, Option, none, some, length,
  length-append, get_elem?, All, All-append, ◌==◌, not, if◌then◌else◌, ◌≡◌, refl, ap, sym, ◌∙◌,
  subst, arith,
}
use wake.Wcl.Trie.{
  TrieNode, Trie, matching, matching_child, change_node, new_node, set_value, add_child, start_at,
  step_to, walk_keys, move_emplace,
}

abbrev pub Bounded : ℕ → List ℕ → Type 0
Bounded n = All (λ i. i < n)

Bounded-more : (m n : ℕ) → m ≤ n → (l : List ℕ) → Bounded m l → Bounded n l
Bounded-more m n le [] b = tt
Bounded-more m n le (i ∷ l) b = (omega (arith, b.0), Bounded-more m n le l b.1)

-- An index that was found, if one was, is in range.
unfoldable Found : ℕ → Option ℕ → Type 0
Found n none = Unit
Found n (some i) = i < n

module _ (K V : Type 0) (same_key : K → K → Bool) where
  abbrev NodesBounded : ℕ → List (TrieNode K V) → Type 0
  NodesBounded n = All (λ node. Bounded n node.child_indexes)

  -- Every index that is kept is one of a node.
  pub record IsInRange (t : Trie K V) : Type 0 where
    pub starts_bounded : Bounded (length t.nodes) t.starts
    pub children_bounded : NodesBounded (length t.nodes) t.nodes

  nodes_more : (m n : ℕ) → m ≤ n → (l : List (TrieNode K V)) → NodesBounded m l → NodesBounded n l
  nodes_more m n le [] b = tt
  nodes_more m n le (node ∷ l) b =
      (Bounded-more m n le node.child_indexes b.0, nodes_more m n le l b.1)

  length-change_node :
      (i : ℕ) (f : TrieNode K V → TrieNode K V) (l : List (TrieNode K V))
      → length (change_node K V same_key i f l) ≡ length l
  unfolding change_node
  length-change_node i f [] = refl
  length-change_node zero f (node ∷ l) = refl
  length-change_node (suc i) f (node ∷ l) = ap suc (length-change_node i f l)

  change_node-Bounded :
      (n i : ℕ) (f : TrieNode K V → TrieNode K V)
      → ((node : TrieNode K V) → Bounded n node.child_indexes → Bounded n (f node).child_indexes)
      → (l : List (TrieNode K V)) → NodesBounded n l
      → NodesBounded n (change_node K V same_key i f l)
  unfolding change_node
  change_node-Bounded n i f h [] b = tt
  change_node-Bounded n zero f h (node ∷ l) b = (h node b.0, b.1)
  change_node-Bounded n (suc i) f h (node ∷ l) b = (b.0, change_node-Bounded n i f h l b.1)

  Found-if :
      (n i : ℕ) (b : Bool) (later : Option ℕ)
      → i < n
      → Found n later
      → Found n (if b then some i else later)
  unfolding Found
  Found-if n i true later l f = l
  Found-if n i false later l f = f

  Found-round :
      (n i : ℕ) (key : K) (later : Option ℕ) (e : Option (TrieNode K V))
      → i < n
      → Found n later
      → Found n
          (elim e [ none ↦ later | some node ↦ if same_key key node.key then some i else later ])
  Found-round n i key later none l f = f
  Found-round n i key later (some node) l f = Found-if n i (same_key key node.key) later l f

  matching-Found :
      (n : ℕ) (nodes : List (TrieNode K V)) (l : List ℕ) (key : K)
      → Bounded n l
      → Found n (matching K V same_key nodes l key)
  unfolding matching
  matching-Found n nodes [] key b = unfold Found in tt
  matching-Found n nodes (i ∷ l) key b =
      Found-round n i key _ (get_elem? nodes i) b.0 (matching-Found n nodes l key b.1)

  Found-child :
      (n : ℕ) (nodes rest : List (TrieNode K V)) (i : ℕ) (key : K)
      → NodesBounded n rest
      → Found n (elim (get_elem? rest i) [
        | none ↦ none
        | some node ↦ matching K V same_key nodes node.child_indexes key
      ])
  Found-child n nodes [] i key b = unfold Found in tt
  Found-child n nodes (node ∷ rest) zero key b = matching-Found n nodes node.child_indexes key b.0
  Found-child n nodes (node ∷ rest) (suc i) key b = Found-child n nodes rest i key b.1

  matching_child-Found :
      (t : Trie K V) (i : ℕ) (key : K)
      → IsInRange t
      → Found (length t.nodes) (matching_child K V same_key t i key)
  unfolding matching_child
  matching_child-Found t i key r = Found-child _ t.nodes t.nodes i key r.children_bounded

  -- A step of an insertion stands at a node of a trie whose indices are in range.
  abbrev pub Stands : ℕ × Trie K V → Type 0
  Stands r = (r.0 < length r.1.nodes) × IsInRange r.1

  grown_bounded :
      (nodes : List (TrieNode K V)) (key : K)
      → NodesBounded (length nodes) nodes
      → NodesBounded
          (length (nodes ++ new_node K V same_key key ∷ []))
          (nodes ++ new_node K V same_key key ∷ [])
  grown_bounded nodes key b =
      All-append
        (λ node. Bounded (length (nodes ++ new_node K V same_key key ∷ [])) node.child_indexes)
        nodes (new_node K V same_key key ∷ [])
        (nodes_more (length nodes) _
          (omega (arith, length-append nodes (new_node K V same_key key ∷ []))) nodes b)
        (tt, tt)

  pub start_at-Stands :
      (t : Trie K V) (key : K) → IsInRange t → Stands (start_at K V same_key t key)
  unfolding start_at
  start_at-Stands t key r =
      go (matching K V same_key t.nodes t.starts key)
        (matching-Found (length t.nodes) t.nodes t.starts key r.starts_bounded)
    where
      go :
          (found : Option ℕ)
          → Found (length t.nodes) found
          → Stands (elim found [
            | some root ↦ (root, t)
            | none ↦ (
              length t.nodes,
              record t {
                nodes = t.nodes ++ new_node K V same_key key ∷ [];
                starts = t.starts ++ length t.nodes ∷ [];
              },
            )
          ])
      go (some root) f = (unfold Found in f, r)
      go none f =
          let more = length-append t.nodes (new_node K V same_key key ∷ []) in
          (
            omega (arith, more),
            record {
              starts_bounded =
                  All-append (λ i. i < length (t.nodes ++ new_node K V same_key key ∷ [])) t.starts
                    (length t.nodes ∷ [])
                    (Bounded-more (length t.nodes) _ (omega (arith, more)) t.starts
                      r.starts_bounded)
                    (omega (arith, more), tt);
              children_bounded = grown_bounded t.nodes key r.children_bounded;
            },
          )

  changed-Bounded :
      (n i : ℕ) (f : TrieNode K V → TrieNode K V) (nodes : List (TrieNode K V))
      → ((node : TrieNode K V) → Bounded n node.child_indexes → Bounded n (f node).child_indexes)
      → NodesBounded n nodes
      → length nodes ≡ n
      → NodesBounded
          (length (change_node K V same_key i f nodes))
          (change_node K V same_key i f nodes)
  changed-Bounded n i f nodes h b e =
      subst (λ m. NodesBounded m (change_node K V same_key i f nodes))
        (sym (length-change_node i f nodes ∙ e)) (change_node-Bounded n i f h nodes b)

  add_child-Bounded :
      (n i : ℕ) (node : TrieNode K V)
      → i < n
      → Bounded n node.child_indexes
      → Bounded n (add_child K V same_key i node).child_indexes
  add_child-Bounded n i node l b = All-append (λ j. j < n) node.child_indexes (i ∷ []) b (l, tt)

  pub step_to-Stands :
      (t : Trie K V) (root : ℕ) (key : K) → IsInRange t → Stands (step_to K V same_key t root key)
  unfolding step_to
  step_to-Stands t root key r =
      go (matching_child K V same_key t root key) (matching_child-Found t root key r)
    where
      grown : List (TrieNode K V)
      grown = t.nodes ++ new_node K V same_key key ∷ []

      linked : Bool → Trie K V
      linked b = record t {
        nodes =
            if b
            then change_node K V same_key root (add_child K V same_key (length t.nodes)) grown
            else grown;
      }

      more : length grown ≡ length t.nodes + 1
      more = length-append t.nodes (new_node K V same_key key ∷ [])

      made : (b : Bool) → Stands (length t.nodes, linked b)
      made false = (
        omega (arith, more),
        record {
          starts_bounded =
              Bounded-more (length t.nodes) _ (omega (arith, more)) t.starts r.starts_bounded;
          children_bounded = grown_bounded t.nodes key r.children_bounded;
        },
      )
      made true =
          let same = length-change_node root (add_child K V same_key (length t.nodes)) grown in
          (
            omega (arith, more, same),
            record {
              starts_bounded =
                  Bounded-more (length t.nodes) _ (omega (arith, more, same)) t.starts
                    r.starts_bounded;
              children_bounded =
                  changed-Bounded (length grown) root (add_child K V same_key (length t.nodes))
                    grown
                    (λ node b.
                      add_child-Bounded (length grown) (length t.nodes) node (omega (arith, more))
                        b)
                    (grown_bounded t.nodes key r.children_bounded) refl;
            },
          )

      go :
          (found : Option ℕ)
          → Found (length t.nodes) found
          → Stands (elim found [
            | some child ↦ (child, t)
            | none ↦ (length t.nodes, linked (not (length t.nodes == root)))
          ])
      go (some child) f = (unfold Found in f, r)
      go none f = made (not (length t.nodes == root))

  walk_keys-Stands :
      (t : Trie K V) (root : ℕ) (keys : List K)
      → Stands (root, t)
      → Stands (walk_keys K V same_key t root keys)
  unfolding walk_keys
  walk_keys-Stands t root [] s = s
  walk_keys-Stands t root (key ∷ keys) s =
      walk_keys-Stands (step_to K V same_key t root key).1 (step_to K V same_key t root key).0 keys
        (step_to-Stands t root key s.1)

  -- In a trie whose indices are all indices of nodes, they are so behind `move_emplace`.
  pub move_emplace-IsInRange :
      (keys : List K) (v : V) (t : Trie K V)
      → IsInRange t
      → IsInRange (move_emplace K V same_key keys v t)
  unfolding move_emplace
  move_emplace-IsInRange [] v t r = record {
    starts_bounded = r.starts_bounded;
    children_bounded = r.children_bounded;
  }
  move_emplace-IsInRange (key ∷ keys) v t r =
      let at = start_at-Stands t key r in
      let s =
        walk_keys-Stands (start_at K V same_key t key).1 (start_at K V same_key t key).0 keys at in
      let walked =
        walk_keys K V same_key (start_at K V same_key t key).1 (start_at K V same_key t key).0
          keys in
      record {
        starts_bounded =
            Bounded-more (length walked.1.nodes) _
              (omega (arith, length-change_node walked.0 (set_value K V same_key v) walked.1.nodes))
              walked.1.starts s.1.starts_bounded;
        children_bounded =
            changed-Bounded (length walked.1.nodes) walked.0 (set_value K V same_key v)
              walked.1.nodes (λ node b. b) s.1.children_bounded refl;
      }
