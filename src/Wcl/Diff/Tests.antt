-- ===== src/Wcl/Diff/Tests.antt =====
-- A difference of two texts, with a stack for a queue.
use wake.Prelude.{
  ℕ, List, [], ◌∷◌, codes, length, Option, none, some, inl, inr, ◌⊎◌, ◌==◌, ==_iff, ◌≡◌, refl, ap,
  arith, sym, ◌∙◌, suc, subst,
}
use wake.Wcl.Diff.{DiffItem, Edge, sub, keep, diff}
use wake.Wcl.Diff.Paths.{olds, news}
use wake.Wcl.Diff.Queue.{IsQueue, Member}
use wake.Wcl.Diff.Script.{diff-olds-news}

-- The last edge that was pushed.
abbrev last_pushed : List Edge → Option (Edge × List Edge)
last_pushed [] = none
last_pushed (e ∷ q) = some (e, q)

last_pushed_lem :
    (e x : Edge) (q r : List Edge)
    → ◌≡◌ {A = Option (Edge × List Edge)} (some (x, q)) (some (e, r))
    → (x ≡ e) × (q ≡ r)
last_pushed_lem e x q r p = (ap (λ o. first o) p, ap (λ o. second o) p)
  where
    first : Option (Edge × List Edge) → Edge
    first none = x
    first (some s) = s.0

    second : Option (Edge × List Edge) → List Edge
    second none = q
    second (some s) = s.1

last_pushed-IsQueue : IsQueue last_pushed
last_pushed-IsQueue = record {
  top_none = λ q e. none_left q e;
  top_edge = λ q r e p. taken q r e p;
  top_rest = λ q r e x p m. rest q r e x p m;
  top_kept = λ q r e x p m. kept q r e x p m;
  top_length = λ q r e p. shorter q r e p;
}
  where
    none_left : (q : List Edge) → last_pushed q ≡ none → q ≡ []
    none_left [] e = refl
    none_left (x ∷ q) e = absurd (cc e)

    taken : (q r : List Edge) (e : Edge) → last_pushed q ≡ some (e, r) → Member e q
    taken [] r e p = absurd (cc p)
    taken (x ∷ q) r e p = inl (sym (last_pushed_lem e x q r p).0)

    rest : (q r : List Edge) (e x : Edge) → last_pushed q ≡ some (e, r) → Member x r → Member x q
    rest [] r e x p m = absurd (cc p)
    rest (y ∷ q) r e x p m = inr (subst (Member x) (sym (last_pushed_lem e y q r p).1) m)

    shorter : (q r : List Edge) (e : Edge) → last_pushed q ≡ some (e, r) → length q ≡ suc (length r)
    shorter [] r e p = absurd (cc p)
    shorter (y ∷ q) r e p = ap (λ l. suc (length l)) (last_pushed_lem e y q r p).1

    kept :
        (q r : List Edge) (e x : Edge)
        → last_pushed q ≡ some (e, r)
        → Member x q
        → (x ≡ e) ⊎ Member x r
    kept [] r e x p m = absurd m
    kept (y ∷ q) r e x p (inl m) = inl (m ∙ (last_pushed_lem e y q r p).0)
    kept (y ∷ q) r e x p (inr m) = inr (subst (Member x) (last_pushed_lem e y q r p).1 m)

diff_runs :
    diff ℕ ◌==◌ (codes "ab") (codes "b") last_pushed 20
    ≡ some (record { kind = sub; value = b'a' } ∷ record { kind = keep; value = b'b' } ∷ [])
unfolding diff
diff_runs = refl

diff-olds-news_example :
    (out : List (DiffItem ℕ)) × (diff ℕ ◌==◌ (codes "abcd") (codes "acbd") last_pushed 54
      ≡ some out)
    × (olds out ≡ codes "abcd")
    × (news out ≡ codes "acbd")
diff-olds-news_example =
    diff-olds-news ℕ ◌==◌ (codes "abcd") (codes "acbd") last_pushed last_pushed-IsQueue
      (λ x y. (==_iff x y).0) 54 (omega arith)
