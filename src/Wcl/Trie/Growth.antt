-- ===== src/Wcl/Trie/Growth.antt =====
-- How the nodes of the trie of src/wcl/trie.h grow, and what is found there stays.
use wake.Prelude.{
  ℕ, zero, suc, ◌<◌, List, [], ◌∷◌, ◌++◌, append-nil, append_assoc, Bool, true, false, Bool-cases,
  inl, inr, none, some, length, get_elem?, All, ◌==◌, ==_iff, ==_refl, ◌≡◌, ◌≢◌, refl, ap, sym, ◌∙◌,
  subst, arith,
}
use wake.Wcl.Trie.{TrieNode, Trie, matching, matching_child, change_node, set_value, add_child}
use wake.Wcl.Trie.Bounds.{Bounded, IsInRange}

pub get_elem?-append :
    {A : Type 0} (l m : List A) (i : ℕ) (x : A)
    → get_elem? l i ≡ some x
    → get_elem? (l ++ m) i ≡ some x
get_elem?-append [] m i x e = absurd (cc e)
get_elem?-append (y ∷ l) m zero x e = e
get_elem?-append (y ∷ l) m (suc i) x e = get_elem?-append l m i x e

pub get_elem?_last : {A : Type 0} (l : List A) (x : A) → get_elem? (l ++ x ∷ []) (length l) ≡ some x
get_elem?_last [] x = refl
get_elem?_last (y ∷ l) x = get_elem?_last l x

pub get_elem?_inside :
    {A : Type 0} (l : List A) (i : ℕ) → i < length l → (x : A) × (get_elem? l i ≡ some x)
get_elem?_inside [] i h = absurd (omega arith)
get_elem?_inside (y ∷ l) zero h = (y, refl)
get_elem?_inside (y ∷ l) (suc i) h = get_elem?_inside l i (omega arith)

none-ne-some : {A : Type 0} {x : A} → none ≢ some x
none-ne-some e = cc e

equal_no : (i j : ℕ) → i == j ≡ false → i ≢ j
equal_no i j h e = cc (h, ==_refl j, e)

module _ (K V : Type 0) (same_key : K → K → Bool) where
  abbrev pub Nodes : Type 0
  Nodes = List (TrieNode K V)

  pub get_elem?-change_node :
      (l : Nodes) (j : ℕ) (f : TrieNode K V → TrieNode K V) (x : TrieNode K V)
      → get_elem? l j ≡ some x
      → get_elem? (change_node K V same_key j f l) j ≡ some (f x)
  unfolding change_node
  get_elem?-change_node [] j f x e = absurd (cc e)
  get_elem?-change_node (y ∷ l) zero f x e =
      ap (λ o. elim o [ none ↦ none | some z ↦ some (f z) ]) e
  get_elem?-change_node (y ∷ l) (suc j) f x e = get_elem?-change_node l j f x e

  pub change_node_other :
      (l : Nodes) (i j : ℕ) (f : TrieNode K V → TrieNode K V)
      → i ≢ j
      → get_elem? (change_node K V same_key j f l) i ≡ get_elem? l i
  unfolding change_node
  change_node_other [] i j f n = refl
  change_node_other (y ∷ l) zero zero f n = absurd (n refl)
  change_node_other (y ∷ l) (suc i) zero f n = refl
  change_node_other (y ∷ l) zero (suc j) f n = refl
  change_node_other (y ∷ l) (suc i) (suc j) f n = change_node_other l i j f (λ e. n (ap suc e))

  -- A node keeps its key, and its children stay the first.
  pub record Extends (x y : TrieNode K V) : Type 0 where
    pub same : y.key ≡ x.key
    pub extra : List ℕ
    pub longer : y.child_indexes ≡ x.child_indexes ++ extra

  abbrev pub Grows : Nodes → Nodes → Type 0
  Grows a b =
      (i : ℕ) (x : TrieNode K V)
      → get_elem? a i ≡ some x
      → (y : TrieNode K V) × (get_elem? b i ≡ some y) × Extends x y

  Extends-refl : (x : TrieNode K V) → Extends x x
  Extends-refl x = record { same = refl; extra = []; longer = sym (append-nil x.child_indexes) }

  Extends-trans : (x y z : TrieNode K V) → Extends x y → Extends y z → Extends x z
  Extends-trans x y z e f = record {
    same = f.same ∙ e.same;
    extra = e.extra ++ f.extra;
    longer =
        f.longer ∙ ap (λ l. l ++ f.extra) e.longer ∙ append_assoc x.child_indexes e.extra f.extra;
  }

  pub Grows-refl : (a : Nodes) → Grows a a
  Grows-refl a i x e = (x, e, Extends-refl x)

  pub Grows-trans : (a b c : Nodes) → Grows a b → Grows b c → Grows a c
  Grows-trans a b c g h i x e =
      let (y, at, ext) = g i x e in
      let (z, at', ext') = h i y at in (z, at', Extends-trans x y z ext ext')

  pub Grows-append : (a b : Nodes) → Grows a (a ++ b)
  Grows-append a b i x e = (x, get_elem?-append a b i x e, Extends-refl x)

  pub Grows-change_node :
      (a : Nodes) (j : ℕ) (f : TrieNode K V → TrieNode K V)
      → ((x : TrieNode K V) → Extends x (f x))
      → Grows a (change_node K V same_key j f a)
  Grows-change_node a j f h i x e = elim (Bool-cases (i == j)) [
    | inl q ↦
        let at = subst (λ k. get_elem? a k ≡ some x) ((==_iff i j).0 q) e in
        (
          f x,
          subst (λ k. get_elem? (change_node K V same_key j f a) k ≡ some (f x))
              (sym ((==_iff i j).0 q)) (get_elem?-change_node a j f x at),
          h x,
        )
    | inr q ↦ (x, change_node_other a i j f (equal_no i j q) ∙ e, Extends-refl x)
  ]

  pub Extends-set_value : (v : V) (x : TrieNode K V) → Extends x (set_value K V same_key v x)
  Extends-set_value v x = record {
    same = refl;
    extra = [];
    longer = sym (append-nil x.child_indexes);
  }

  pub Extends-add_child : (i : ℕ) (x : TrieNode K V) → Extends x (add_child K V same_key i x)
  Extends-add_child i x = record { same = refl; extra = i ∷ []; longer = refl }

  matching_hit :
      (nodes : Nodes) (i : ℕ) (l : List ℕ) (key : K) (x : TrieNode K V)
      → get_elem? nodes i ≡ some x
      → same_key key x.key ≡ true
      → matching K V same_key nodes (i ∷ l) key ≡ some i
  unfolding matching
  matching_hit nodes i l key x e h = rw (matching, e, h) refl

  matching_skip :
      (nodes : Nodes) (i : ℕ) (l : List ℕ) (key : K) (x : TrieNode K V)
      → get_elem? nodes i ≡ some x
      → same_key key x.key ≡ false
      → matching K V same_key nodes (i ∷ l) key ≡ matching K V same_key nodes l key
  unfolding matching
  matching_skip nodes i l key x e h = rw (matching, e, h) refl

  matching_nothing : (nodes : Nodes) (key : K) → matching K V same_key nodes [] key ≡ none
  unfolding matching
  matching_nothing nodes key = refl

  -- The child that is found first stays the first.
  pub matching_kept :
      (a b : Nodes) (l m : List ℕ) (key : K) (c : ℕ)
      → Grows a b
      → Bounded (length a) l
      → matching K V same_key a l key ≡ some c
      → matching K V same_key b (l ++ m) key ≡ some c
  matching_kept a b [] m key c g h e = absurd (none-ne-some (sym (matching_nothing a key) ∙ e))
  matching_kept a b (i ∷ l) m key c g h e =
      let (x, at) = get_elem?_inside a i h.0 in
      let (y, at', ext) = g i x at in
      elim (Bool-cases (same_key key x.key)) [
        | inl q ↦
            matching_hit b i (l ++ m) key y at' (ap (same_key key) ext.same ∙ q)
            ∙ sym (matching_hit a i l key x at q)
            ∙ e
        | inr q ↦
            matching_skip b i (l ++ m) key y at' (ap (same_key key) ext.same ∙ q)
            ∙ matching_kept a b l m key c g h.1 (sym (matching_skip a i l key x at q) ∙ e)
      ]

  -- Where no child has the key, one that is put at the end is found.
  pub matching_new :
      (a b : Nodes) (l : List ℕ) (key : K) (c : ℕ) (x : TrieNode K V)
      → Grows a b
      → Bounded (length a) l
      → matching K V same_key a l key ≡ none
      → get_elem? b c ≡ some x
      → same_key key x.key ≡ true
      → matching K V same_key b (l ++ c ∷ []) key ≡ some c
  matching_new a b [] key c x g h e at k = matching_hit b c [] key x at k
  matching_new a b (i ∷ l) key c x g h e at k =
      let (y, at_a) = get_elem?_inside a i h.0 in
      let (z, at_b, ext) = g i y at_a in
      elim (Bool-cases (same_key key y.key)) [
        | inl q ↦ absurd (none-ne-some (sym e ∙ matching_hit a i l key y at_a q))
        | inr q ↦
            matching_skip b i (l ++ c ∷ []) key z at_b (ap (same_key key) ext.same ∙ q)
            ∙ matching_new a b l key c x g h.1 (sym (matching_skip a i l key y at_a q) ∙ e) at k
      ]

  pub matching_child_at :
      (t : Trie K V) (i : ℕ) (key : K) (x : TrieNode K V)
      → get_elem? t.nodes i ≡ some x
      → matching_child K V same_key t i key ≡ matching K V same_key t.nodes x.child_indexes key
  unfolding matching_child
  matching_child_at t i key x e = rw (matching_child, e) refl

  pub node-Bounded :
      (n : ℕ) (l : Nodes) (i : ℕ) (x : TrieNode K V)
      → All (λ node. Bounded n node.child_indexes) l
      → get_elem? l i ≡ some x
      → Bounded n x.child_indexes
  node-Bounded n [] i x b e = absurd (cc e)
  node-Bounded n (y ∷ l) zero x b e =
      subst (λ o. elim o [ none ↦ Unit {0} | some z ↦ Bounded n z.child_indexes ]) e b.0
  node-Bounded n (y ∷ l) (suc i) x b e = node-Bounded n l i x b.1 e

  -- A child that is found in a trie is found in one that has grown from it.
  pub matching_child_kept :
      (t u : Trie K V) (i c : ℕ) (key : K)
      → IsInRange K V same_key t
      → Grows t.nodes u.nodes
      → i < length t.nodes
      → matching_child K V same_key t i key ≡ some c
      → matching_child K V same_key u i key ≡ some c
  matching_child_kept t u i c key r g h e =
      let (x, at) = get_elem?_inside t.nodes i h in
      let (y, at', ext) = g i x at in
      matching_child_at u i key y at'
      ∙ ap (λ l. matching K V same_key u.nodes l key) ext.longer
      ∙ matching_kept t.nodes u.nodes x.child_indexes ext.extra key c g
          (node-Bounded (length t.nodes) t.nodes i x r.children_bounded at)
          (sym (matching_child_at t i key x at) ∙ e)
