-- ===== src/Types/Dsu/Union.antt =====
-- DSU::union_consume of src/types/dsu.h joins two sets.
use wake.Prelude.{
  ℕ, zero, suc, ◌≤◌, true, false, Bool-cases, inl, inr, Option, none, some, ◌==◌, ==_iff,
  if◌then◌else◌, ◌≡◌, refl, sym, ◌∙◌, subst, subst₂, arith,
}
use wake.Types.Dsu.{update_at, Store, compress, join_sets, union_consume}
use wake.Types.Dsu.Chains.{Chain, Chain-end, none-some, update_at_other}
use wake.Types.Dsu.Compress.{Keeps, Keeps-trans, compress-Compressed}

-- The root behind a union of the sets with the roots r and q.
abbrev pub joined_root : ℕ → ℕ → ℕ → ℕ
joined_root r q t = if t == q then r else t

joined_root_same : (r q t : ℕ) → r ≡ q → t ≡ joined_root r q t
joined_root_same r q t e = elim (Bool-cases (t == q)) [
  | inl b ↦ rw b ((==_iff t q).0 b ∙ sym e)
  | inr b ↦ rw b refl
]

-- Where a root gets another root for a parent, the chains that ended at it go on by a step.
Chain-joined :
    (f : ℕ → Option ℕ) (r q n y t : ℕ)
    → f r ≡ none
    → f q ≡ none
    → (r == q) ≡ false
    → Chain f n y t
    → (m : ℕ) × Chain (update_at q (some r) f) m y (joined_root r q t)
Chain-joined f r q zero y t e h d c =
    subst (λ z. (m : ℕ) × Chain (update_at q (some r) f) m y (joined_root r q z)) c.0
      (elim (Bool-cases (y == q)) [
        | inl b ↦ rw b (1, (r, on_root b, (refl, update_at_other q r (some r) f d ∙ e)))
        | inr b ↦ rw b (0, (refl, update_at_other q y (some r) f b ∙ c.1))
      ])
  where
    on_root : (y == q) ≡ true → update_at q (some r) f y ≡ some r
    on_root b = rw b refl
Chain-joined f r q (suc n) y t e h d c = elim (Bool-cases (y == q)) [
  | inl b ↦ absurd (none-some c.0 (sym (subst (λ z. f z ≡ none) (sym ((==_iff y q).0 b)) h) ∙ c.1))
  | inr b ↦
      let i = Chain-joined f r q n c.0 t e h d c.2 in
      (suc i.0, (c.0, update_at_other q y (some r) f b ∙ c.1, i.1))
]

module _ (T : Type 0) where
  -- The payloads behind the union.
  abbrev pub joined_payload : ℕ → ℕ → (ℕ → Option T) → ℕ → Option T
  joined_payload r q payload y = if r == q then payload y else update_at q none payload y

  -- What a union leaves, of the parents and payloads before.
  abbrev pub Joined : (ℕ → Option ℕ) → (ℕ → Option T) → ℕ → ℕ → Store T → Type 0
  Joined f payload r q s =
      ((n y t : ℕ) → Chain f n y t → (m : ℕ) × Chain s.parent m y (joined_root r q t))
      × ((y : ℕ) → s.payload y ≡ joined_payload r q payload y)

  join_sets-Joined :
      (r q : ℕ) (s : Store T)
      → s.parent r ≡ none
      → s.parent q ≡ none
      → Joined s.parent s.payload r q (join_sets T r q s)
  join_sets-Joined r q s e h = elim (Bool-cases (r == q)) [
    | inl b ↦ rw b (
      λ n y t c.
          (n, subst (λ z. Chain s.parent n y z) (joined_root_same r q t ((==_iff r q).0 b)) c),
      λ y. refl,
    )
    | inr b ↦ rw b (λ n y t c. Chain-joined s.parent r q n y t e h b c, λ y. refl)
  ]

  Joined-same :
      (f g : ℕ → Option ℕ) (payload before : ℕ → Option T) (r q : ℕ) (s : Store T)
      → Keeps f g
      → ((y : ℕ) → payload y ≡ before y)
      → Joined g payload r q s
      → Joined f before r q s
  Joined-same f g payload before r q s k e j =
      (λ n y t c. let i = k n y t c in j.0 i.0 y t i.2, λ y. j.1 y ∙ same y)
    where
      same : (y : ℕ) → joined_payload r q payload y ≡ joined_payload r q before y
      same y = elim (Bool-cases (r == q)) [
        | inl b ↦ rw b (e y)
        | inr b ↦ elim (Bool-cases (y == q)) [ inl a ↦ rw (b, a) refl | inr a ↦ rw (b, a) (e y) ]
      ]

  -- With as many rounds as the longer of the ways to the two roots has steps, the union joins the two
  -- sets: an Imp whose root was that of the second object has the root of the first one, the others
  -- keep theirs, and only the payload of the second root is reset, if the roots differ.
  pub union_consume-Joined :
      (fuel imp other n m r q : ℕ) (s : Store T)
      → n ≤ fuel
      → m ≤ fuel
      → Chain s.parent n imp r
      → Chain s.parent m other q
      → Joined s.parent s.payload r q (union_consume T fuel imp other s)
  unfolding union_consume
  union_consume-Joined fuel imp other n m r q s l k c d =
      let first = compress-Compressed T fuel imp n r s l c in
      let way = first.1 m other q d in
      let s1 : Store T = (compress T fuel imp s).0 in
      let second = compress-Compressed T fuel other way.0 q s1 (omega arith) way.2 in
      let s2 : Store T = (compress T fuel other s1).0 in
      let kept = Keeps-trans s.parent s1.parent s2.parent first.1 second.1 in
      subst₂ (λ a b. Joined s.parent s.payload r q (join_sets T a b s2)) (sym first.0)
        (sym second.0)
        (Joined-same s.parent s2.parent s2.payload s.payload r q (join_sets T r q s2) kept
          (λ y. second.2 y ∙ first.2 y)
          (join_sets-Joined r q s2 (let i = kept n imp r c in Chain-end s2.parent i.0 imp r i.2)
            (let i = kept m other q d in Chain-end s2.parent i.0 other q i.2)))
