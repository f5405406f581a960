-- ===== src/Wcl/Diff/Script.antt =====
-- `wcl::diff` of src/wcl/diff.h returns an edit script.
use wake.Prelude.{
  ℕ, zero, suc, ◌+◌, ◌*◌, ◌<◌, ◌≤◌, List, [], ◌∷◌, Bool, true, false, Bool-cases, inl, inr, not,
  Option, some, Option-cases, length, take, ◌≡◌, refl, ap, sym, ◌∙◌, subst, subst₂, arith,
}
use wake.Wcl.Diff.{
  add, sub, keep, DiffItem, Edge, first_edge, advance1, advance2, seen, populate_out, at_end1,
  at_end2, can_keep, push_if, start_edges, push_edges, search_loop, diff,
}
use wake.Wcl.Diff.Paths.{olds, news, IsPath, populate_out-IsPath}
use wake.Wcl.Diff.Measure.{Positions, fresh, fresh_less, grid, seen-grid, fresh-grid_le}
use wake.Wcl.Diff.Queue.{
  Member, IsQueue, way_on, way_on_keep, way_on-add, way_on_sub, only_first, Member-push_if,
  Member-push_if_now, push_if-Member, length-push_if, length-push_edges, no_end, Fits-keep,
  IsPath-inside,
}
use wake.Wcl.Diff.Search.{
  IsRunning, Followed, ended, ended_lem, stuck, IsRunning-visit, IsRunning-drop,
}

take_all : {T : Type 0} (l : List T) → take (length l) l ≡ l
take_all [] = refl
take_all (x ∷ l) = ap (λ r. x ∷ r) (take_all l)

module _ (T : Type 0) (equal : T → T → Bool) (xs ys : List T) where
  abbrev subs : List Edge
  subs =
      push_if T equal xs ys (not (at_end1 T equal xs ys 0)) (first_edge sub 0 0)
        (push_if T equal xs ys (not (at_end2 T equal xs ys 0)) (first_edge add 0 0) [])

  Member-start :
      ended T equal xs ys 0 0 ≡ false
      → Member (first_edge (way_on T equal xs ys 0 0) 0 0) (start_edges T equal xs ys)
  unfolding start_edges
  Member-start n = elim (Bool-cases (can_keep T equal xs ys 0 0)) [
    | inl b ↦
        subst (λ k. Member (first_edge k 0 0) (start_edges T equal xs ys))
          (sym (way_on_keep T equal xs ys 0 0 b))
          (Member-push_if_now T equal xs ys (first_edge keep 0 0) subs (can_keep T equal xs ys 0 0)
            b)
    | inr b ↦ elim (Bool-cases (at_end2 T equal xs ys 0)) [
      | inl c ↦
          subst (λ k. Member (first_edge k 0 0) (start_edges T equal xs ys))
            (sym (way_on_sub T equal xs ys 0 0 b c))
            (Member-push_if T equal xs ys (first_edge keep 0 0) (first_edge sub 0 0) subs
              (can_keep T equal xs ys 0 0)
              (Member-push_if_now T equal xs ys (first_edge sub 0 0) _
                (not (at_end1 T equal xs ys 0))
                (only_first T equal xs ys (at_end1 T equal xs ys 0) _ c n)))
      | inr c ↦
          subst (λ k. Member (first_edge k 0 0) (start_edges T equal xs ys))
            (sym (way_on-add T equal xs ys 0 0 b c))
            (Member-push_if T equal xs ys (first_edge keep 0 0) (first_edge add 0 0) subs
              (can_keep T equal xs ys 0 0)
              (Member-push_if T equal xs ys (first_edge sub 0 0) (first_edge add 0 0)
                (push_if T equal xs ys (not (at_end2 T equal xs ys 0)) (first_edge add 0 0) [])
                (not (at_end1 T equal xs ys 0))
                (Member-push_if_now T equal xs ys (first_edge add 0 0) []
                  (not (at_end2 T equal xs ys 0)) (ap not c))))
    ]
  ]

  start-IsPath : (e : Edge) → Member e (start_edges T equal xs ys) → IsPath T equal xs ys e
  unfolding start_edges
  start-IsPath e m =
      elim (push_if-Member T equal xs ys (first_edge keep 0 0) e subs (can_keep T equal xs ys 0 0)
        m) [
          | inl s ↦
              subst (IsPath T equal xs ys) (sym s.0)
                (refl, refl, Fits-keep T equal xs ys 0 0 (omega arith) (omega arith) s.1)
          | inr m' ↦
              elim (push_if-Member T equal xs ys (first_edge sub 0 0) e
                (push_if T equal xs ys (not (at_end2 T equal xs ys 0)) (first_edge add 0 0) [])
                (not (at_end1 T equal xs ys 0)) m') [
                  | inl s ↦
                      subst (IsPath T equal xs ys) (sym s.0)
                        (refl, refl, no_end T equal xs ys 0 xs (omega arith) s.1)
                  | inr m'' ↦
                      elim (push_if-Member T equal xs ys (first_edge add 0 0) e []
                        (not (at_end2 T equal xs ys 0)) m'') [
                          | inl s ↦
                              subst (IsPath T equal xs ys) (sym s.0)
                                (refl, refl, no_end T equal xs ys 0 ys (omega arith) s.1)
                          | inr none_left ↦ absurd none_left
                        ]
                ]
        ]

  length-start : length (start_edges T equal xs ys) ≤ 3
  unfolding start_edges
  length-start = omega (
    arith,
    length-push_if T equal xs ys (first_edge keep 0 0) subs (can_keep T equal xs ys 0 0),
    length-push_if T equal xs ys (first_edge sub 0 0)
        (push_if T equal xs ys (not (at_end2 T equal xs ys 0)) (first_edge add 0 0) [])
        (not (at_end1 T equal xs ys 0)),
    length-push_if T equal xs ys (first_edge add 0 0) [] (not (at_end2 T equal xs ys 0)),
  )

  start-IsRunning :
      ended T equal xs ys 0 0 ≡ false → IsRunning T equal xs ys (start_edges T equal xs ys) []
  start-IsRunning n = record {
    paths = start-IsPath;
    followed = λ i j reached ongoing. elim reached [
      | inl z ↦
          subst₂ (λ u v. Followed T equal xs ys u v (start_edges T equal xs ys) []) (sym z.0)
            (sym z.1) (inr (first_edge (way_on T equal xs ys 0 0) 0 0, Member-start n, refl, refl))
      | inr s ↦ absurd (cc s)
    ];
    unfinished = λ i j s. absurd (cc s);
  }

  -- A script from the one sequence to the other.
  abbrev Found : Option (List (DiffItem T)) → Type 0
  Found result = (out : List (DiffItem T)) × (result ≡ some out) × (olds out ≡ xs) × (news out ≡ ys)

  module _ (top : List Edge → Option (Edge × List Edge)) (queue : IsQueue top)
      (sound : (x y : T) → equal x y ≡ true → x ≡ y) where
    loop_drop :
        (fuel : ℕ) (e : Edge) (q r : List Edge) (visited : Positions)
        → top q ≡ some (e, r)
        → seen (advance1 e) (advance2 e) visited ≡ true
        → search_loop T equal xs ys top (suc fuel) q visited
          ≡ search_loop T equal xs ys top fuel r visited
    unfolding search_loop
    loop_drop fuel e q r visited t s = rw (search_loop, t, s) refl

    loop_done :
        (fuel : ℕ) (e : Edge) (q r : List Edge) (visited : Positions)
        → top q ≡ some (e, r)
        → seen (advance1 e) (advance2 e) visited ≡ false
        → ended T equal xs ys (advance1 e) (advance2 e) ≡ true
        → search_loop T equal xs ys top (suc fuel) q visited ≡ populate_out T equal xs ys e
    unfolding search_loop
    loop_done fuel e q r visited t s d = rw (search_loop, t, s, d) refl

    loop_visit :
        (fuel : ℕ) (e : Edge) (q r : List Edge) (visited : Positions)
        → top q ≡ some (e, r)
        → seen (advance1 e) (advance2 e) visited ≡ false
        → ended T equal xs ys (advance1 e) (advance2 e) ≡ false
        → search_loop T equal xs ys top (suc fuel) q visited
          ≡ search_loop T equal xs ys top fuel
              (push_edges T equal xs ys e r)
              ((advance1 e, advance2 e) ∷ visited)
    unfolding search_loop
    loop_visit fuel e q r visited t s d = rw (search_loop, t, s, d) refl

    Found-populate_out :
        (e : Edge)
        → IsPath T equal xs ys e
        → ended T equal xs ys (advance1 e) (advance2 e) ≡ true
        → Found (populate_out T equal xs ys e)
    Found-populate_out e p d =
        let (out, at, old, new) = populate_out-IsPath T equal xs ys sound e p in
        let (a, b) = ended_lem T equal xs ys (advance1 e) (advance2 e) d in
        (
          out,
          at,
          old ∙ ap (λ k. take k xs) a ∙ take_all xs,
          new ∙ ap (λ k. take k ys) b ∙ take_all ys,
        )

    diff_empty : (fuel : ℕ) → ended T equal xs ys 0 0 ≡ true → diff T equal xs ys top fuel ≡ some []
    unfolding diff
    diff_empty fuel d = rw (diff, d) refl

    diff_open :
        (fuel : ℕ)
        → ended T equal xs ys 0 0 ≡ false
        → diff T equal xs ys top fuel
          ≡ search_loop T equal xs ys top fuel (start_edges T equal xs ys) []
    unfolding diff
    diff_open fuel d = rw (diff, d) refl

    abbrev left : Positions → ℕ
    left visited = fresh (grid (length xs) (length ys)) visited

    left_less :
        (e : Edge) (visited : Positions)
        → IsPath T equal xs ys e
        → seen (advance1 e) (advance2 e) visited ≡ false
        → left ((advance1 e, advance2 e) ∷ visited) < left visited
    left_less e visited p s =
        let (a, b) = IsPath-inside T equal xs ys e p in
        fresh_less (grid (length xs) (length ys)) visited (advance1 e) (advance2 e)
          (seen-grid (advance1 e) (advance2 e) (length xs) (length ys) a b) s

    search_loop-Found :
        (fuel : ℕ) (q : List Edge) (visited : Positions)
        → length q + 2 * left visited < fuel
        → ended T equal xs ys 0 0 ≡ false
        → IsRunning T equal xs ys q visited
        → Found (search_loop T equal xs ys top fuel q visited)
    search_loop-Found zero q visited m ongoing run = absurd (omega arith)
    search_loop-Found (suc fuel) q visited m ongoing run = elim (Option-cases (top q)) [
      | inl t ↦ absurd (
          stuck T equal xs ys visited (length xs + length ys) 0 0 ongoing
            (subst (λ r. IsRunning T equal xs ys r visited) (queue.top_none q t) run) (omega arith)
            (omega arith) (omega arith) (inl (refl, refl)))
      | inr ((e, r), t) ↦ elim (Bool-cases (seen (advance1 e) (advance2 e) visited)) [
        | inl s ↦ subst Found (sym (loop_drop fuel e q r visited t s)) (
            search_loop-Found fuel r visited (omega (arith, queue.top_length q r e t)) ongoing (
              IsRunning-drop T equal xs ys e q r visited (λ x. queue.top_rest q r e x t)
                (λ x. queue.top_kept q r e x t) s run))
        | inr s ↦ elim (Bool-cases (ended T equal xs ys (advance1 e) (advance2 e))) [
          | inl d ↦
              subst Found (sym (loop_done fuel e q r visited t s d))
                (Found-populate_out e (run.paths e (queue.top_edge q r e t)) d)
          | inr d ↦ subst Found (sym (loop_visit fuel e q r visited t s d)) (
              search_loop-Found fuel (push_edges T equal xs ys e r)
                ((advance1 e, advance2 e) ∷ visited)
                (omega (
                  arith,
                  queue.top_length q r e t,
                  length-push_edges T equal xs ys e r,
                  left_less e visited (run.paths e (queue.top_edge q r e t)) s,
                ))
                ongoing
                (IsRunning-visit T equal xs ys e q r visited (λ x. queue.top_rest q r e x t)
                  (λ x. queue.top_kept q r e x t) (queue.top_edge q r e t) d run))
        ]
      ]
    ]

    -- With any priority queue, and an equality test that only equal values pass, `diff` ends within
    -- four rounds and two for each pair of positions, and returns a script whose kept and removed
    -- values are the first sequence, and whose kept and added values are the second.
    pub diff-olds-news :
        (fuel : ℕ)
        → 4 + 2 * (suc (length xs) * suc (length ys)) ≤ fuel
        → (out : List (DiffItem T)) × (diff T equal xs ys top fuel ≡ some out)
          × (olds out ≡ xs)
          × (news out ≡ ys)
    diff-olds-news fuel m = elim (Bool-cases (ended T equal xs ys 0 0)) [
      | inl d ↦
          let (a, b) = ended_lem T equal xs ys 0 0 d in
          ([], diff_empty fuel d, nothing_left xs a, nothing_left ys b)
      | inr d ↦ subst Found (sym (diff_open fuel d)) (
          search_loop-Found fuel (start_edges T equal xs ys) []
            (omega (arith, length-start, fresh-grid_le (length xs) (length ys))) d
            (start-IsRunning d))
    ]
      where
        nothing_left : (l : List T) → 0 ≡ length l → [] ≡ l
        nothing_left [] e = refl
        nothing_left (x ∷ l) e = absurd (omega arith)
