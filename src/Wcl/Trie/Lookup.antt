-- ===== src/Wcl/Trie/Lookup.antt =====
-- What `find` of src/wcl/trie.h returns behind `move_emplace`.
use wake.Prelude.{
  ℕ, zero, suc, ◌<◌, List, [], ◌∷◌, ◌++◌, append-nil, Bool, true, false, Option-cases, inl, inr,
  Option, none, some, length, get_elem?, ◌==◌, ◌≡◌, ◌≢◌, refl, ap, sym, ◌∙◌, subst, arith,
}
use wake.Wcl.Trie.{
  TrieNode, Trie, matching, matching_child, change_node, new_node, set_value, add_child, start_at,
  step_to, walk_keys, move_emplace, value_at, better, descend, find_max, find,
}
use wake.Wcl.Trie.Bounds.{IsInRange, Stands, start_at-Stands, step_to-Stands}
use wake.Wcl.Trie.Growth.{
  Nodes, Grows, Grows-refl, Grows-trans, Grows-append, Grows-change_node, Extends-set_value,
  Extends-add_child, get_elem?_last, get_elem?-append, get_elem?-change_node, get_elem?_inside,
  change_node_other, matching_kept, matching_new, matching_child_at, matching_child_kept,
  node-Bounded,
}

below_no : (n i : ℕ) → i < n → n == i ≡ false
below_no n i h = ground arith

module _ (K V : Type 0) (same_key : K → K → Bool) where
  -- The nodes that keys lead to, from a node on.
  abbrev Follows : Trie K V → ℕ → List K → ℕ → Type 0
  Follows t i [] j = i ≡ j
  Follows t i (key ∷ keys) j =
      (c : ℕ) × (matching_child K V same_key t i key ≡ some c) × Follows t c keys j

  descend_step :
      (t : Trie K V) (i c : ℕ) (key : K) (keys : List K) (best : Option V × List K)
      → matching_child K V same_key t i key ≡ some c
      → descend K V same_key t i (key ∷ keys) best
        ≡ descend K V same_key t c keys (better K V same_key (value_at K V same_key t c) keys best)
  unfolding descend
  descend_step t i c key keys best e = rw (descend, e) refl

  -- A descent to a node with a value returns the value, with no key left.
  descend-Follows :
      (t : Trie K V) (i j : ℕ) (keys : List K) (v : V) (best : Option V × List K)
      → Follows t i keys j
      → value_at K V same_key t j ≡ some v
      → descend K V same_key t i keys (better K V same_key (value_at K V same_key t i) keys best)
        ≡ (some v, [])
  descend-Follows t i j [] v best f e =
      unfold descend better in
      ap (λ o. better K V same_key o [] best) (ap (value_at K V same_key t) f ∙ e)
  descend-Follows t i j (key ∷ keys) v best (c, at, f) e =
      descend_step t i c key keys _ at ∙ descend-Follows t c j keys v _ f e

  -- A path stays in a trie that grows.
  Follows-kept :
      (t u : Trie K V) (i j : ℕ) (keys : List K)
      → ((k : ℕ) (key : K) (c : ℕ)
          → matching_child K V same_key t k key ≡ some c
          → matching_child K V same_key u k key ≡ some c)
      → Follows t i keys j
      → Follows u i keys j
  Follows-kept t u i j [] h f = f
  Follows-kept t u i j (key ∷ keys) h (c, at, f) = (c, h i key c at, Follows-kept t u c j keys h f)

  abbrev made : Trie K V → ℕ → K → Trie K V
  made t root key = record t {
    nodes =
        change_node K V same_key root (add_child K V same_key (length t.nodes))
          (t.nodes ++ new_node K V same_key key ∷ []);
  }

  step_found :
      (t : Trie K V) (root c : ℕ) (key : K)
      → matching_child K V same_key t root key ≡ some c
      → step_to K V same_key t root key ≡ (c, t)
  unfolding step_to
  step_found t root c key e = rw (step_to, e) refl

  step_made :
      (t : Trie K V) (root : ℕ) (key : K)
      → matching_child K V same_key t root key ≡ none
      → root < length t.nodes
      → step_to K V same_key t root key ≡ (length t.nodes, made t root key)
  unfolding step_to
  step_made t root key e h = rw (step_to, e, below_no (length t.nodes) root h) refl

  made-Grows :
      (t : Trie K V) (root : ℕ) (key : K) → Grows K V same_key t.nodes (made t root key).nodes
  made-Grows t root key =
      Grows-trans K V same_key t.nodes (t.nodes ++ new_node K V same_key key ∷ []) _
        (Grows-append K V same_key t.nodes (new_node K V same_key key ∷ []))
        (Grows-change_node K V same_key _ root _ (Extends-add_child K V same_key (length t.nodes)))

  step_to-Grows :
      (t : Trie K V) (root : ℕ) (key : K)
      → root < length t.nodes
      → Grows K V same_key t.nodes (step_to K V same_key t root key).1.nodes
  step_to-Grows t root key h = elim (Option-cases (matching_child K V same_key t root key)) [
    | inl e ↦
        subst (λ r. Grows K V same_key t.nodes r.1.nodes) (sym (step_made t root key e h))
          (made-Grows t root key)
    | inr (c, e) ↦
        subst (λ r. Grows K V same_key t.nodes r.1.nodes) (sym (step_found t root c key e))
          (Grows-refl K V same_key t.nodes)
  ]

  module _ (same_key_refl : (key : K) → same_key key key ≡ true) where
    made_found :
        (t : Trie K V) (root : ℕ) (key : K)
        → IsInRange K V same_key t
        → root < length t.nodes
        → matching_child K V same_key t root key ≡ none
        → matching_child K V same_key (made t root key) root key ≡ some (length t.nodes)
    made_found t root key r h e =
        let (x, at) = get_elem?_inside t.nodes root h in
        let grown = t.nodes ++ new_node K V same_key key ∷ [] in
        matching_child_at K V same_key (made t root key) root key
          (add_child K V same_key (length t.nodes) x)
          (get_elem?-change_node K V same_key grown root _ x
            (get_elem?-append t.nodes (new_node K V same_key key ∷ []) root x at))
        ∙ matching_new K V same_key t.nodes (made t root key).nodes x.child_indexes key
            (length t.nodes) (new_node K V same_key key) (made-Grows t root key)
            (node-Bounded K V same_key (length t.nodes) t.nodes root x r.children_bounded at)
            (sym (matching_child_at K V same_key t root key x at) ∙ e)
            (change_node_other K V same_key grown (length t.nodes) root _ (λ q. omega (arith, q))
              ∙ get_elem?_last t.nodes (new_node K V same_key key))
            (same_key_refl key)

    step_to-found :
        (t : Trie K V) (root : ℕ) (key : K)
        → IsInRange K V same_key t
        → root < length t.nodes
        → matching_child K V same_key (step_to K V same_key t root key).1 root key
          ≡ some (step_to K V same_key t root key).0
    step_to-found t root key r h = elim (Option-cases (matching_child K V same_key t root key)) [
      | inl e ↦
          subst (λ r. matching_child K V same_key r.1 root key ≡ some r.0)
            (sym (step_made t root key e h)) (made_found t root key r h e)
      | inr (c, e) ↦
          subst (λ r. matching_child K V same_key r.1 root key ≡ some r.0)
            (sym (step_found t root c key e)) e
    ]

    inside_of :
        (l : Nodes K V same_key) (i : ℕ) (x : TrieNode K V) → get_elem? l i ≡ some x → i < length l
    inside_of [] i x e = absurd (cc e)
    inside_of (y ∷ l) zero x e = omega arith
    inside_of (y ∷ l) (suc i) x e = omega (arith, inside_of l i x e)

    Grows-inside :
        (a b : Nodes K V same_key) (i : ℕ) → Grows K V same_key a b → i < length a → i < length b
    Grows-inside a b i g h =
        let (x, at) = get_elem?_inside a i h in let (y, at', ext) = g i x at in inside_of b i y at'

    step_to-starts :
        (t : Trie K V) (root : ℕ) (key : K)
        → root < length t.nodes
        → (step_to K V same_key t root key).1.starts ≡ t.starts
    step_to-starts t root key h = elim (Option-cases (matching_child K V same_key t root key)) [
      | inl e ↦ ap (λ r. r.1.starts) (step_made t root key e h)
      | inr (c, e) ↦ ap (λ r. r.1.starts) (step_found t root c key e)
    ]

    -- The walk of an insertion leads along a path that stays, and only grows the nodes.
    walk_keys-Follows :
        (t : Trie K V) (root : ℕ) (keys : List K)
        → Stands K V same_key (root, t)
        → Follows
            (walk_keys K V same_key t root keys).1
            root
            keys
            (walk_keys K V same_key t root keys).0
          × Grows K V same_key t.nodes (walk_keys K V same_key t root keys).1.nodes
          × ((walk_keys K V same_key t root keys).1.starts ≡ t.starts)
          × Stands K V same_key (walk_keys K V same_key t root keys)
    unfolding walk_keys
    walk_keys-Follows t root [] s = (refl, Grows-refl K V same_key t.nodes, refl, s)
    walk_keys-Follows t root (key ∷ keys) s =
        let next = step_to K V same_key t root key in
        let grown = step_to-Grows t root key s.0 in
        let stands = step_to-Stands K V same_key t root key s.1 in
        let (path, more, same, last) = walk_keys-Follows next.1 next.0 keys stands in
        (
          (
            next.0,
            matching_child_kept K V same_key next.1 (walk_keys K V same_key next.1 next.0 keys).1
                root next.0 key stands.1 more (Grows-inside t.nodes next.1.nodes root grown s.0)
                (step_to-found t root key s.1 s.0),
            path,
          ),
          Grows-trans K V same_key t.nodes next.1.nodes _ grown more,
          same ∙ step_to-starts t root key s.0,
          last,
        )

    start_at-found :
        (t : Trie K V) (key : K)
        → IsInRange K V same_key t
        → matching K V same_key
            (start_at K V same_key t key).1.nodes
            (start_at K V same_key t key).1.starts
            key
          ≡ some (start_at K V same_key t key).0
    unfolding start_at
    start_at-found t key r = elim (Option-cases (matching K V same_key t.nodes t.starts key)) [
      | inl e ↦
          rw (start_at, e)
            (matching_new K V same_key t.nodes (t.nodes ++ new_node K V same_key key ∷ []) t.starts
              key (length t.nodes) (new_node K V same_key key)
              (Grows-append K V same_key t.nodes (new_node K V same_key key ∷ [])) r.starts_bounded
              e (get_elem?_last t.nodes (new_node K V same_key key)) (same_key_refl key))
      | inr (c, e) ↦ rw (start_at, e) e
    ]

    nothing_found :
        (t : Trie K V) (i : ℕ) (key : K) (c : ℕ)
        → get_elem? t.nodes i ≡ none
        → matching_child K V same_key t i key ≢ some c
    unfolding matching_child
    nothing_found t i key c q e = cc (
      e,
      ap
          (λ o. elim o as (λ z. Option ℕ) [
            | none ↦ none
            | some node ↦ matching K V same_key t.nodes node.child_indexes key
          ])
          q,
    )

    found_inside :
        (t : Trie K V) (i : ℕ) (key : K) (c : ℕ)
        → matching_child K V same_key t i key ≡ some c
        → i < length t.nodes
    found_inside t i key c e = elim (Option-cases (get_elem? t.nodes i)) [
      | inl q ↦ absurd (nothing_found t i key c q e)
      | inr (x, at) ↦ inside_of t.nodes i x at
    ]

    Follows-final :
        (t u : Trie K V) (i j : ℕ) (keys : List K)
        → IsInRange K V same_key t
        → Grows K V same_key t.nodes u.nodes
        → Follows t i keys j
        → Follows u i keys j
    Follows-final t u i j keys r g f =
        Follows-kept t u i j keys
          (λ k key c e.
            matching_child_kept K V same_key t u k c key r g (found_inside t k key c e) e)
          f

    find_max_at :
        (t : Trie K V) (root : ℕ) (key : K) (keys : List K)
        → matching K V same_key t.nodes t.starts key ≡ some root
        → find_max K V same_key t (key ∷ keys)
          ≡ descend K V same_key t root keys
              (better K V same_key (value_at K V same_key t root) keys (none, key ∷ keys))
    unfolding find_max
    find_max_at t root key keys e = rw (find_max, e) refl

    find_lem :
        (t : Trie K V) (keys : List K) (v : V)
        → find_max K V same_key t keys ≡ (some v, [])
        → find K V same_key t keys ≡ some v
    unfolding find
    find_lem t keys v e = ap (λ r. elim r.1 as (λ z. Option V) [ [] ↦ r.0 | k ∷ ks ↦ none ]) e

    set_value-found :
        (t : Trie K V) (j : ℕ) (v : V)
        → j < length t.nodes
        → value_at K V same_key
            (record t { nodes = change_node K V same_key j (set_value K V same_key v) t.nodes })
            j
          ≡ some v
    unfolding value_at
    set_value-found t j v h =
        let (x, at) = get_elem?_inside t.nodes j h in
        ap (λ o. elim o as (λ z. Option V) [ none ↦ none | some node ↦ node.value ])
          (get_elem?-change_node K V same_key t.nodes j (set_value K V same_key v) x at)

    -- Behind `move_emplace` of a value at a sequence of keys, `find` of the sequence finds the value:
    -- in a trie whose indices are all indices of nodes, for a test of keys that every key passes
    -- against itself.
    pub find-move_emplace :
        (keys : List K) (v : V) (t : Trie K V)
        → IsInRange K V same_key t
        → find K V same_key (move_emplace K V same_key keys v t) keys ≡ some v
    unfolding move_emplace
    find-move_emplace [] v t r = find_lem _ [] v (unfold find_max in refl)
    find-move_emplace (key ∷ keys) v t r =
        let first = start_at K V same_key t key in
        let stands = start_at-Stands K V same_key t key r in
        let (path, more, same, last) = walk_keys-Follows first.1 first.0 keys stands in
        let walked = walk_keys K V same_key first.1 first.0 keys in
        let set = set_value K V same_key v in
        let final : Trie K V = record walked.1 {
          nodes = change_node K V same_key walked.0 set walked.1.nodes;
        } in
        let grown =
          Grows-change_node K V same_key walked.1.nodes walked.0 set
            (Extends-set_value K V same_key v) in
        let kept = Follows-final walked.1 final first.0 walked.0 keys last.1 grown path in
        find_lem final (key ∷ keys) v (
          find_max_at final first.0 key keys (
            ap (λ l. matching K V same_key final.nodes l key)
              (same ∙ sym (append-nil first.1.starts))
            ∙ matching_kept K V same_key first.1.nodes final.nodes first.1.starts [] key first.0
                (Grows-trans K V same_key first.1.nodes walked.1.nodes final.nodes more grown)
                stands.1.starts_bounded (start_at-found t key r))
          ∙ descend-Follows final first.0 walked.0 keys v (none, key ∷ keys) kept
              (set_value-found walked.1 walked.0 v last.0))
