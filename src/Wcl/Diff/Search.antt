-- ===== src/Wcl/Diff/Search.antt =====
-- The search of src/wcl/diff.h ends, and with a script.
use wake.Prelude.{
  ℕ, zero, suc, ◌+◌, ◌≤◌, List, [], ◌∷◌, Bool, true, false, Bool-cases, inl, inr, ◌⊎◌, ◌&&◌, ◌||◌,
  length, ◌==◌, ==_iff, ==_refl, ◌≡◌, ◌≢◌, refl, ap, sym, ◌∙◌, subst₂, arith,
}
use wake.Wcl.Diff.{
  Edge, next_edge, move1, move2, advance1, advance2, seen, at_end1, at_end2, push_edges,
}
use wake.Wcl.Diff.Paths.{IsPath}
use wake.Wcl.Diff.Measure.{Positions}
use wake.Wcl.Diff.Queue.{
  Member, way_on, Member-push_edges, Member-way_on, push_edges-IsPath, way_on_inside,
}

module _ (T : Type 0) (equal : T → T → Bool) (xs ys : List T) where
  abbrev pub Path_ : Edge → Type 0
  Path_ = IsPath T equal xs ys

  -- The search has been at a position: the first, or one it visited.
  abbrev pub Reached : ℕ → ℕ → Positions → Type 0
  Reached i j visited = ((i ≡ 0) × (j ≡ 0)) ⊎ (seen i j visited ≡ true)

  abbrev pub ended : ℕ → ℕ → Bool
  ended i j = at_end1 T equal xs ys i && at_end2 T equal xs ys j

  abbrev pub next1 : ℕ → ℕ → ℕ
  next1 i j = move1 (way_on T equal xs ys i j) i

  abbrev pub next2 : ℕ → ℕ → ℕ
  next2 i j = move2 (way_on T equal xs ys i j) j

  -- The way on from a position is behind the search, or in the queue.
  abbrev pub Followed : ℕ → ℕ → List Edge → Positions → Type 0
  Followed i j q visited =
      Reached (next1 i j) (next2 i j) visited
      ⊎ ((e : Edge) × Member e q × (advance1 e ≡ next1 i j) × (advance2 e ≡ next2 i j))

  -- The queue holds paths, and the way on from every position reached; the end was not visited.
  pub record IsRunning (q : List Edge) (visited : Positions) : Type 0 where
    pub paths : (e : Edge) → Member e q → Path_ e
    pub followed : (i j : ℕ) → Reached i j visited → ended i j ≡ false → Followed i j q visited
    pub unfinished : (i j : ℕ) → seen i j visited ≡ true → ended i j ≡ false

  seen_more :
      (i j : ℕ) (v : ℕ × ℕ) (visited : Positions)
      → seen i j visited ≡ true
      → seen i j (v ∷ visited) ≡ true
  seen_more i j v visited h = or_second _ _ h
    where
      or_second : (a b : Bool) → b ≡ true → a || b ≡ true
      or_second true b h = refl
      or_second false b h = h

  seen_now : (i j : ℕ) (visited : Positions) → seen i j ((i, j) ∷ visited) ≡ true
  seen_now i j visited = rw (==_refl i, ==_refl j) refl

  seen_split :
      (i j : ℕ) (v : ℕ × ℕ) (visited : Positions)
      → seen i j (v ∷ visited) ≡ true
      → ((i ≡ v.0) × (j ≡ v.1)) ⊎ (seen i j visited ≡ true)
  seen_split i j v visited h = elim (Bool-cases (i == v.0)) [
    | inl a ↦ elim (Bool-cases (j == v.1)) [
      | inl b ↦ inl ((==_iff i v.0).0 a, (==_iff j v.1).0 b)
      | inr b ↦ inr (sym (rw (a, b) refl) ∙ h)
    ]
    | inr a ↦ inr (sym (rw a refl) ∙ h)
  ]

  Reached-more :
      (i j : ℕ) (v : ℕ × ℕ) (visited : Positions) → Reached i j visited → Reached i j (v ∷ visited)
  Reached-more i j v visited (inl h) = inl h
  Reached-more i j v visited (inr h) = inr (seen_more i j v visited h)

  -- What an edge of the queue led to is reached, or the edge is still there.
  Followed-taken :
      (i j : ℕ) (e : Edge) (q r : List Edge) (visited : Positions)
      → ((x : Edge) → Member x q → (x ≡ e) ⊎ Member x r)
      → seen (advance1 e) (advance2 e) visited ≡ true
      → Followed i j q visited
      → Followed i j r visited
  Followed-taken i j e q r visited k s (inl h) = inl h
  Followed-taken i j e q r visited k s (inr (x, m, a, b)) = elim (k x m) [
    | inl p ↦ inl (
        inr (
          subst₂ (λ u v. seen u v visited ≡ true) (ap advance1 (sym p) ∙ a)
            (ap advance2 (sym p) ∙ b) s))
    | inr m' ↦ inr (x, m', a, b)
  ]

  true-ne-false : true ≢ false
  true-ne-false e = cc e

  pub ended_lem : (i j : ℕ) → ended i j ≡ true → (i ≡ length xs) × (j ≡ length ys)
  ended_lem i j e = ground (arith, ==_iff i (length xs), ==_iff j (length ys))

  -- No position that was reached is the end.
  Reached-unfinished :
      (i j : ℕ) (q : List Edge) (visited : Positions)
      → ended 0 0 ≡ false
      → IsRunning q visited
      → Reached i j visited
      → ended i j ≡ false
  Reached-unfinished i j q visited ongoing run (inl z) =
      subst₂ (λ u v. ended u v ≡ false) (sym z.0) (sym z.1) ongoing
  Reached-unfinished i j q visited ongoing run (inr s) = run.unfinished i j s

  -- With no edge left the search would go on without an end.
  pub stuck :
      (visited : Positions) (k i j : ℕ)
      → ended 0 0 ≡ false
      → IsRunning [] visited
      → i ≤ length xs
      → j ≤ length ys
      → length xs + length ys ≤ i + j + k
      → Reached i j visited
      → ⊥
  stuck visited zero i j ongoing run h1 h2 m reached =
      let inside =
        way_on_inside T equal xs ys i j h1 h2
          (Reached-unfinished i j [] visited ongoing run reached) in
      omega (arith, inside.0, inside.1, inside.2)
  stuck visited (suc k) i j ongoing run h1 h2 m reached =
      let e = Reached-unfinished i j [] visited ongoing run reached in
      let inside = way_on_inside T equal xs ys i j h1 h2 e in
      elim (run.followed i j reached e) [
        | inl next ↦
            stuck visited k (next1 i j) (next2 i j) ongoing run inside.0 inside.1
              (omega (arith, inside.2)) next
        | inr x ↦ x.1
      ]

  -- A visit of a new position keeps the search running.
  pub IsRunning-visit :
      (e : Edge) (q r : List Edge) (visited : Positions)
      → ((x : Edge) → Member x r → Member x q)
      → ((x : Edge) → Member x q → (x ≡ e) ⊎ Member x r)
      → Member e q
      → ended (advance1 e) (advance2 e) ≡ false
      → IsRunning q visited
      → IsRunning (push_edges T equal xs ys e r) ((advance1 e, advance2 e) ∷ visited)
  IsRunning-visit e q r visited sub_q kept at ongoing run = record {
    paths = λ x m.
        push_edges-IsPath T equal xs ys e x r (run.paths e at) (λ y m'. run.paths y (sub_q y m')) m;
    followed = λ i j reached n. follow i j n reached;
    unfinished = λ i j s. elim (seen_split i j (advance1 e, advance2 e) visited s) [
      | inl z ↦ subst₂ (λ u v. ended u v ≡ false) (sym z.0) (sym z.1) ongoing
      | inr old ↦ run.unfinished i j old
    ];
  }
    where
      new : Positions
      new = (advance1 e, advance2 e) ∷ visited

      here : Followed (advance1 e) (advance2 e) (push_edges T equal xs ys e r) new
      here = inr (
        next_edge (way_on T equal xs ys (advance1 e) (advance2 e)) e,
        Member-way_on T equal xs ys e r ongoing,
        refl,
        refl,
      )

      before :
          (i j : ℕ)
          → Reached i j visited
          → ended i j ≡ false
          → Followed i j (push_edges T equal xs ys e r) new
      before i j reached n = elim (run.followed i j reached n) [
        | inl h ↦ inl (Reached-more (next1 i j) (next2 i j) (advance1 e, advance2 e) visited h)
        | inr (x, m, a, b) ↦ elim (kept x m) [
          | inl p ↦ inl (
              inr (
                subst₂ (λ u v. seen u v new ≡ true) (ap advance1 (sym p) ∙ a)
                  (ap advance2 (sym p) ∙ b) (seen_now (advance1 e) (advance2 e) visited)))
          | inr m' ↦ inr (x, Member-push_edges T equal xs ys e x r m', a, b)
        ]
      ]

      follow :
          (i j : ℕ)
          → ended i j ≡ false
          → Reached i j new
          → Followed i j (push_edges T equal xs ys e r) new
      follow i j n (inl z) = before i j (inl z) n
      follow i j n (inr s) = elim (seen_split i j (advance1 e, advance2 e) visited s) [
        | inl z ↦
            subst₂ (λ u v. Followed u v (push_edges T equal xs ys e r) new) (sym z.0) (sym z.1) here
        | inr old ↦ before i j (inr old) n
      ]

  -- So does an edge to a position that was visited, when it is dropped.
  pub IsRunning-drop :
      (e : Edge) (q r : List Edge) (visited : Positions)
      → ((x : Edge) → Member x r → Member x q)
      → ((x : Edge) → Member x q → (x ≡ e) ⊎ Member x r)
      → seen (advance1 e) (advance2 e) visited ≡ true
      → IsRunning q visited
      → IsRunning r visited
  IsRunning-drop e q r visited sub_q kept s run = record {
    paths = λ x m. run.paths x (sub_q x m);
    followed =
        λ i j reached n. Followed-taken i j e q r visited kept s (run.followed i j reached n);
    unfinished = run.unfinished;
  }
