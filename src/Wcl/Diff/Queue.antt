-- ===== src/Wcl/Diff/Queue.antt =====
-- The queue of edges of the search under src/wcl/diff.h, and what is pushed there.
use wake.Prelude.{
  ℕ, suc, ◌+◌, ◌<◌, ◌≤◌, List, [], ◌∷◌, Bool, true, false, Bool-cases, inl, inr, ◌⊎◌, not, ◌&&◌,
  Option, none, some, length, ◌==◌, if◌then◌else◌, ◌≡◌, refl, ap, sym, subst, arith,
}
use wake.Wcl.Diff.{
  DiffType, add, sub, keep, Edge, first_edge, next_edge, move1, move2, advance1, advance2, at_end1,
  at_end2, can_keep, push_if, push_edges,
}
use wake.Wcl.Diff.Paths.{Fits, IsPath}

abbrev pub Member : Edge → List Edge → Type 0
Member e [] = ⊥
Member e (x ∷ q) = (e ≡ x) ⊎ Member e q

-- What the search relies on of the priority queue: while edges are left it takes one of them out, and
-- leaves the others. The order among them is left open.
pub record IsQueue (top : List Edge → Option (Edge × List Edge)) : Type 0 where
  pub top_none : (q : List Edge) → top q ≡ none → q ≡ []
  pub top_edge : (q r : List Edge) (e : Edge) → top q ≡ some (e, r) → Member e q
  pub top_rest : (q r : List Edge) (e x : Edge) → top q ≡ some (e, r) → Member x r → Member x q
  pub top_kept :
      (q r : List Edge) (e x : Edge) → top q ≡ some (e, r) → Member x q → (x ≡ e) ⊎ Member x r
  pub top_length : (q r : List Edge) (e : Edge) → top q ≡ some (e, r) → length q ≡ suc (length r)

module _ (T : Type 0) (equal : T → T → Bool) (xs ys : List T) where
  -- The edge that leads on from a position.
  abbrev pub way_on : ℕ → ℕ → DiffType
  way_on i j =
      if can_keep T equal xs ys i j
      then keep
      else if not (at_end2 T equal xs ys j)
      then add
      else sub

  pub Member-push_if_now :
      (e : Edge) (q : List Edge) (b : Bool) → b ≡ true → Member e (push_if T equal xs ys b e q)
  Member-push_if_now e q true h = inl refl
  Member-push_if_now e q false h = absurd (cc h)

  pub Member-push_if :
      (e x : Edge) (q : List Edge) (b : Bool) → Member x q → Member x (push_if T equal xs ys b e q)
  Member-push_if e x q true h = inr h
  Member-push_if e x q false h = h

  pub push_if-Member :
      (e x : Edge) (q : List Edge) (b : Bool)
      → Member x (push_if T equal xs ys b e q)
      → ((x ≡ e) × (b ≡ true)) ⊎ Member x q
  push_if-Member e x q true (inl h) = inl (h, refl)
  push_if-Member e x q true (inr h) = inr h
  push_if-Member e x q false h = inr h

  pub length-push_if :
      (e : Edge) (q : List Edge) (b : Bool) → length (push_if T equal xs ys b e q) ≤ suc (length q)
  length-push_if e q true = omega arith
  length-push_if e q false = omega arith

  abbrev pub goes1 : Edge → Bool
  goes1 e = not (at_end1 T equal xs ys (advance1 e))

  abbrev pub goes2 : Edge → Bool
  goes2 e = not (at_end2 T equal xs ys (advance2 e))

  abbrev pub keeps : Edge → Bool
  keeps e = can_keep T equal xs ys (advance1 e) (advance2 e)

  abbrev pub forked : Edge → List Edge → List Edge
  forked e q =
      push_if T equal xs ys (goes1 e) (next_edge sub e)
        (push_if T equal xs ys (goes2 e) (next_edge add e) q)

  push_edges_keep :
      (e : Edge) (q : List Edge)
      → keeps e ≡ true
      → push_edges T equal xs ys e q ≡ next_edge keep e ∷ q
  unfolding push_edges
  push_edges_keep e q b = rw (push_edges, b) refl

  push_edges_fork :
      (e : Edge) (q : List Edge) → keeps e ≡ false → push_edges T equal xs ys e q ≡ forked e q
  unfolding push_edges
  push_edges_fork e q b = rw (push_edges, b) refl

  -- What holds of both ways to push holds of the pushed.
  push_edges_cases :
      (P : List Edge → Type 0) (e : Edge) (q : List Edge)
      → (keeps e ≡ true → P (next_edge keep e ∷ q))
      → (keeps e ≡ false → P (forked e q))
      → P (push_edges T equal xs ys e q)
  push_edges_cases P e q k f = elim (Bool-cases (keeps e)) [
    | inl b ↦ subst P (sym (push_edges_keep e q b)) (k b)
    | inr b ↦ subst P (sym (push_edges_fork e q b)) (f b)
  ]

  pub length-push_edges :
      (e : Edge) (q : List Edge) → length (push_edges T equal xs ys e q) ≤ 2 + length q
  length-push_edges e q =
      push_edges_cases (λ r. length r ≤ 2 + length q) e q (λ b. omega arith)
        (λ b. omega (
          arith,
          length-push_if (next_edge sub e) (push_if T equal xs ys (goes2 e) (next_edge add e) q)
              (goes1 e),
          length-push_if (next_edge add e) q (goes2 e),
        ))

  pub Member-push_edges :
      (e x : Edge) (q : List Edge) → Member x q → Member x (push_edges T equal xs ys e q)
  Member-push_edges e x q h =
      push_edges_cases (Member x) e q (λ b. inr h)
        (λ b.
          Member-push_if (next_edge sub e) x (push_if T equal xs ys (goes2 e) (next_edge add e) q)
            (goes1 e) (Member-push_if (next_edge add e) x q (goes2 e) h))

  pub way_on_keep : (i j : ℕ) → can_keep T equal xs ys i j ≡ true → way_on i j ≡ keep
  way_on_keep i j b = rw b refl

  pub way_on-add :
      (i j : ℕ)
      → can_keep T equal xs ys i j ≡ false
      → at_end2 T equal xs ys j ≡ false
      → way_on i j ≡ add
  way_on-add i j b c = rw (b, c) refl

  pub way_on_sub :
      (i j : ℕ)
      → can_keep T equal xs ys i j ≡ false
      → at_end2 T equal xs ys j ≡ true
      → way_on i j ≡ sub
  way_on_sub i j b c = rw (b, c) refl

  pub only_first : (a b : Bool) → b ≡ true → a && b ≡ false → not a ≡ true
  only_first true true h n = absurd (cc n)
  only_first false b h n = refl
  only_first true false h n = absurd (cc h)

  -- A position that is not the end has a way on among the edges that are pushed there.
  pub Member-way_on :
      (e : Edge) (q : List Edge)
      → (at_end1 T equal xs ys (advance1 e) && at_end2 T equal xs ys (advance2 e)) ≡ false
      → Member (next_edge (way_on (advance1 e) (advance2 e)) e) (push_edges T equal xs ys e q)
  Member-way_on e q n =
      push_edges_cases (Member (next_edge (way_on (advance1 e) (advance2 e)) e)) e q
        (λ b. inl (ap (λ k. next_edge k e) (way_on_keep (advance1 e) (advance2 e) b)))
        (λ b. elim (Bool-cases (at_end2 T equal xs ys (advance2 e))) [
          | inl c ↦
              subst (λ k. Member (next_edge k e) (forked e q))
                (sym (way_on_sub (advance1 e) (advance2 e) b c))
                (Member-push_if_now (next_edge sub e) _ (goes1 e)
                  (only_first (at_end1 T equal xs ys (advance1 e)) _ c n))
          | inr c ↦
              subst (λ k. Member (next_edge k e) (forked e q))
                (sym (way_on-add (advance1 e) (advance2 e) b c))
                (Member-push_if (next_edge sub e) (next_edge add e)
                  (push_if T equal xs ys (goes2 e) (next_edge add e) q) (goes1 e)
                  (Member-push_if_now (next_edge add e) q (goes2 e) (ap not c)))
        ])

  pub no_end : (i : ℕ) (l : List T) → i ≤ length l → not (i == length l) ≡ true → i < length l
  no_end i l h e = ground arith

  and_three : (a b c : Bool) → a && b && c ≡ true → (a ≡ true) × (b ≡ true) × (c ≡ true)
  and_three true true true e = (refl, refl, refl)
  and_three true true false e = absurd (cc e)
  and_three true false c e = absurd (cc e)
  and_three false b c e = absurd (cc e)

  pub Fits-keep :
      (i j : ℕ)
      → i ≤ length xs
      → j ≤ length ys
      → can_keep T equal xs ys i j ≡ true
      → Fits T equal xs ys keep i j
  Fits-keep i j h k c = let (b, a, s) = and_three _ _ _ c in (no_end i xs h a, no_end j ys k b, s)

  -- A path stays within the two sequences.
  pub IsPath-inside :
      (e : Edge) → IsPath T equal xs ys e → (advance1 e ≤ length xs) × (advance2 e ≤ length ys)
  IsPath-inside (first_edge add i j) (a, b, f) = (omega arith, omega arith)
  IsPath-inside (first_edge sub i j) (a, b, f) = (omega arith, omega arith)
  IsPath-inside (first_edge keep i j) (a, b, f) = (omega (arith, f.0), omega (arith, f.1))
  IsPath-inside (next_edge add e) (p, f) = let (a, b) = IsPath-inside e p in (a, omega arith)
  IsPath-inside (next_edge sub e) (p, f) = let (a, b) = IsPath-inside e p in (omega arith, b)
  IsPath-inside (next_edge keep e) (p, f) = (omega (arith, f.0), omega (arith, f.1))

  -- The edges that are pushed go on along paths.
  pub push_edges-IsPath :
      (e x : Edge) (q : List Edge)
      → IsPath T equal xs ys e
      → ((y : Edge) → Member y q → IsPath T equal xs ys y)
      → Member x (push_edges T equal xs ys e q)
      → IsPath T equal xs ys x
  push_edges-IsPath e x q p h =
      let (a, b) = IsPath-inside e p in
      push_edges_cases (λ r. Member x r → IsPath T equal xs ys x) e q
        (λ c m. elim m [
          | inl s ↦ subst (IsPath T equal xs ys) (sym s) (p, Fits-keep _ _ a b c)
          | inr m' ↦ h x m'
        ])
        (λ c m. elim (push_if-Member (next_edge sub e) x _ (goes1 e) m) [
          | inl s ↦ subst (IsPath T equal xs ys) (sym s.0) (p, no_end _ xs a s.1)
          | inr m' ↦ elim (push_if-Member (next_edge add e) x q (goes2 e) m') [
            | inl s ↦ subst (IsPath T equal xs ys) (sym s.0) (p, no_end _ ys b s.1)
            | inr m'' ↦ h x m''
          ]
        ])

  -- The way on from a position within the sequences stays within them, and leads on.
  pub way_on-Fits :
      (i j : ℕ)
      → i ≤ length xs
      → j ≤ length ys
      → (at_end1 T equal xs ys i && at_end2 T equal xs ys j) ≡ false
      → Fits T equal xs ys (way_on i j) i j
  way_on-Fits i j h k n = elim (Bool-cases (can_keep T equal xs ys i j)) [
    | inl b ↦ subst (λ d. Fits T equal xs ys d i j) (sym (way_on_keep i j b)) (Fits-keep i j h k b)
    | inr b ↦ elim (Bool-cases (at_end2 T equal xs ys j)) [
      | inl c ↦
          subst (λ d. Fits T equal xs ys d i j) (sym (way_on_sub i j b c))
            (no_end i xs h (only_first (at_end1 T equal xs ys i) _ c n))
      | inr c ↦
          subst (λ d. Fits T equal xs ys d i j) (sym (way_on-add i j b c))
            (no_end j ys k (ap not c))
    ]
  ]

  move_inside :
      (d : DiffType) (i j : ℕ)
      → i ≤ length xs
      → j ≤ length ys
      → Fits T equal xs ys d i j
      → (move1 d i ≤ length xs) × (move2 d j ≤ length ys) × (i + j < move1 d i + move2 d j)
  move_inside add i j h k f = omega arith
  move_inside sub i j h k f = omega arith
  move_inside keep i j h k (a, b, c) = omega arith

  pub way_on_inside :
      (i j : ℕ)
      → i ≤ length xs
      → j ≤ length ys
      → (at_end1 T equal xs ys i && at_end2 T equal xs ys j) ≡ false
      → (move1 (way_on i j) i ≤ length xs)
        × (move2 (way_on i j) j ≤ length ys)
        × (i + j < move1 (way_on i j) i + move2 (way_on i j) j)
  way_on_inside i j h k n = move_inside (way_on i j) i j h k (way_on-Fits i j h k n)
