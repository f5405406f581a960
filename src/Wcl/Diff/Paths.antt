-- ===== src/Wcl/Diff/Paths.antt =====
-- The edit scripts that edges stand for.
use wake.Prelude.{
  ℕ, zero, suc, ◌<◌, List, [], ◌∷◌, ◌++◌, append-nil, Bool, true, Option, none, some, length,
  get_elem?, take, ◌≡◌, refl, ap, ap₂, sym, ◌∙◌,
}
use wake.Wcl.Trie.Growth.{get_elem?_inside}
use wake.Wcl.Diff.{
  DiffType, add, sub, keep, DiffItem, Edge, first_edge, next_edge, move1, move2, advance1, advance2,
  same_at, item, push_item, populate_out,
}

abbrev old_of : {T : Type 0} → DiffType → T → List T → List T
old_of add v rest = rest
old_of sub v rest = v ∷ rest
old_of keep v rest = v ∷ rest

abbrev new_of : {T : Type 0} → DiffType → T → List T → List T
new_of add v rest = v ∷ rest
new_of sub v rest = rest
new_of keep v rest = v ∷ rest

-- The sequence that a script starts from, and the one that it leads to.
abbrev pub olds : {T : Type 0} → List (DiffItem T) → List T
olds [] = []
olds (d ∷ ds) = old_of d.kind d.value (olds ds)

abbrev pub news : {T : Type 0} → List (DiffItem T) → List T
news [] = []
news (d ∷ ds) = new_of d.kind d.value (news ds)

old_of-append :
    {T : Type 0} (kind : DiffType) (v : T) (a b : List T)
    → old_of kind v (a ++ b) ≡ old_of kind v a ++ b
old_of-append add v a b = refl
old_of-append sub v a b = refl
old_of-append keep v a b = refl

new_of-append :
    {T : Type 0} (kind : DiffType) (v : T) (a b : List T)
    → new_of kind v (a ++ b) ≡ new_of kind v a ++ b
new_of-append add v a b = refl
new_of-append sub v a b = refl
new_of-append keep v a b = refl

olds-append : {T : Type 0} (a b : List (DiffItem T)) → olds (a ++ b) ≡ olds a ++ olds b
olds-append [] b = refl
olds-append (d ∷ a) b =
    ap (old_of d.kind d.value) (olds-append a b) ∙ old_of-append d.kind d.value (olds a) (olds b)

news-append : {T : Type 0} (a b : List (DiffItem T)) → news (a ++ b) ≡ news a ++ news b
news-append [] b = refl
news-append (d ∷ a) b =
    ap (new_of d.kind d.value) (news-append a b) ∙ new_of-append d.kind d.value (news a) (news b)

one_of : {T : Type 0} → Option T → List T
one_of none = []
one_of (some x) = x ∷ []

take_next :
    {T : Type 0} (l : List T) (i : ℕ) (x : T)
    → get_elem? l i ≡ some x
    → take (suc i) l ≡ take i l ++ x ∷ []
take_next [] i x e = absurd (cc e)
take_next (y ∷ l) zero x e = unfold one_of in ap (λ o. one_of o) e
take_next (y ∷ l) (suc i) x e = ap (λ r. y ∷ r) (take_next l i x e)

module _ (T : Type 0) (equal : T → T → Bool) (xs ys : List T) where
  -- An edge of a kind may start at a position.
  abbrev pub Fits : DiffType → ℕ → ℕ → Type 0
  Fits add i j = j < length ys
  Fits sub i j = i < length xs
  Fits keep i j = (i < length xs) × (j < length ys) × (same_at T equal xs ys i j ≡ true)

  -- A chain of edges from the two beginnings.
  abbrev pub IsPath : Edge → Type 0
  IsPath (first_edge kind i j) = (i ≡ 0) × (j ≡ 0) × Fits kind i j
  IsPath (next_edge kind prev) = IsPath prev × Fits kind (advance1 prev) (advance2 prev)

  same_at_lem :
      (i j : ℕ) (x y : T)
      → get_elem? xs i ≡ some x
      → get_elem? ys j ≡ some y
      → same_at T equal xs ys i j ≡ equal x y
  unfolding same_at
  same_at_lem i j x y a b = rw (same_at, a, b) refl

  -- A script with one item more.
  abbrev Extended : DiffType → ℕ → ℕ → Option (DiffItem T) → Type 0
  Extended kind i j o =
      (d : DiffItem T) × (o ≡ some d)
      × (take i xs ++ olds (d ∷ []) ≡ take (move1 kind i) xs)
      × (take j ys ++ news (d ∷ []) ≡ take (move2 kind j) ys)

  item-Extended :
      ((x y : T) → equal x y ≡ true → x ≡ y)
      → (kind : DiffType) (i j : ℕ) → Fits kind i j
      → Extended kind i j (item T equal xs ys kind i j)
  item-Extended sound add i j f =
      let (y, at) = get_elem?_inside ys j f in
      (
        record { kind = add; value = y },
        ap
            (λ o. elim o as (λ z. Option (DiffItem T)) [
              | none ↦ none
              | some z ↦ some (record { kind = add; value = z })
            ])
            at,
        append-nil (take i xs),
        sym (take_next ys j y at),
      )
  item-Extended sound sub i j f =
      let (x, at) = get_elem?_inside xs i f in
      (
        record { kind = sub; value = x },
        ap
            (λ o. elim o as (λ z. Option (DiffItem T)) [
              | none ↦ none
              | some z ↦ some (record { kind = sub; value = z })
            ])
            at,
        sym (take_next xs i x at),
        append-nil (take j ys),
      )
  item-Extended sound keep i j f =
      let (x, at) = get_elem?_inside xs i f.0 in
      let (y, at') = get_elem?_inside ys j f.1 in
      let same = sound x y (sym (same_at_lem i j x y at at') ∙ f.2) in
      (
        record { kind = keep; value = x },
        ap
            (λ o. elim o as (λ z. Option (DiffItem T)) [
              | none ↦ none
              | some z ↦ some (record { kind = keep; value = z })
            ])
            at,
        sym (take_next xs i x at),
        ap (λ z. take j ys ++ z ∷ []) same ∙ sym (take_next ys j y at'),
      )

  -- A chain of edges gives a script from what it passes of the one sequence to what it passes of the
  -- other.
  pub populate_out-IsPath :
      ((x y : T) → equal x y ≡ true → x ≡ y)
      → (e : Edge) → IsPath e
      → (out : List (DiffItem T)) × (populate_out T equal xs ys e ≡ some out)
        × (olds out ≡ take (advance1 e) xs)
        × (news out ≡ take (advance2 e) ys)
  unfolding populate_out
  populate_out-IsPath sound (first_edge kind i j) p =
      let (d, at, old, new) = item-Extended sound kind i j p.2 in
      (
        d ∷ [],
        ap (λ o. push_item T equal xs ys o (some [])) at,
        ap (λ k. take k xs ++ olds (d ∷ [])) (sym p.0) ∙ old,
        ap (λ k. take k ys ++ news (d ∷ [])) (sym p.1) ∙ new,
      )
  populate_out-IsPath sound (next_edge kind prev) p =
      let (out, at, old, new) = populate_out-IsPath sound prev p.0 in
      let (d, at', old', new') = item-Extended sound kind (advance1 prev) (advance2 prev) p.1 in
      (
        out ++ d ∷ [],
        ap₂ (push_item T equal xs ys) at' at,
        olds-append out (d ∷ []) ∙ ap (λ l. l ++ olds (d ∷ [])) old ∙ old',
        news-append out (d ∷ []) ∙ ap (λ l. l ++ news (d ∷ [])) new ∙ new',
      )
