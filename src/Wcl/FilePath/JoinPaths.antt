-- ===== src/Wcl/FilePath/JoinPaths.antt =====
-- `join_paths` goes on from where its first path leads.
use mathlib.Core.List.{foldl, foldl-append}
use wake.Prelude.{
  ℕ, List, [], ◌∷◌, ◌++◌, Bool-cases, inl, inr, false, Bytes, ◌==◌, ◌≡◌, ◌≢◌, refl, ap, ◌∙◌, arith,
  append_assoc,
}
use wake.Wcl.FilePath.Iterator.{slash}
use wake.Wcl.FilePath.Canonical.{is_absolute, ends_open, drop_slash, join_two, join_paths}
use wake.Wcl.FilePath.Tokens.{cut, add_to_first, cut-next_token}
use wake.Wcl.FilePath.Walk.{Directory, step, walk, walk-make_canonical}

add_to_first-append :
    (c : ℕ) (ts us : List Bytes) → ts ≢ [] → add_to_first c (ts ++ us) ≡ add_to_first c ts ++ us
unfolding add_to_first
add_to_first-append c [] us h = absurd (h refl)
add_to_first-append c (t ∷ ts) us h = refl

cut-ne-nil : (x : Bytes) → cut x ≢ []
cut-ne-nil x h = cc (cut-next_token x)

cut-append_slash : (a b : Bytes) → cut (a ++ slash ∷ b) ≡ cut a ++ cut b
unfolding cut
cut-append_slash [] b = refl
cut-append_slash (c ∷ a) b = elim (Bool-cases (c == slash)) [
  | inl e ↦ rw e (ap (λ ts. [] ∷ ts) (cut-append_slash a b))
  | inr e ↦ rw (e, cut-append_slash a b) (add_to_first-append c (cut a) (cut b) (cut-ne-nil a))
]

open_end : (a : Bytes) → ends_open a ≡ false → (front : Bytes) × (a ≡ front ++ slash ∷ [])
unfolding ends_open
open_end [] h = cc
open_end (c ∷ []) h = ([], ground arith)
open_end (c ∷ d ∷ a) h = let (front, e) = open_end (d ∷ a) h in (c ∷ front, ap (λ t. c ∷ t) e)

steps-join_two :
    (dir : Directory) (a b : Bytes)
    → foldl step dir (cut (join_two a b)) ≡ foldl step (foldl step dir (cut a)) (cut (drop_slash b))
unfolding join_two
steps-join_two dir a b = elim (Bool-cases (ends_open a)) [
  | inl e ↦
      rw (e, append_assoc a (slash ∷ []) (drop_slash b), cut-append_slash a (drop_slash b))
        (foldl-append step dir (cut a) _)
  | inr e ↦
      let (front, shape) = open_end a e in
      rw
        (
          e,
          shape,
          append_assoc front (slash ∷ []) (drop_slash b),
          cut-append_slash front (drop_slash b),
          cut-append_slash front [],
          foldl-append step dir (cut front) (cut (drop_slash b)),
          foldl-append step dir (cut front) (cut []),
        )
        (unfold cut step in refl)
]

is_absolute-join_two : (a b : Bytes) → a ≢ [] → is_absolute (join_two a b) ≡ is_absolute a
unfolding join_two is_absolute
is_absolute-join_two [] b h = absurd (h refl)
is_absolute-join_two (c ∷ a) b h = ground arith

-- Where the first path is not empty, and the second one, less one leading slash, does not start with a
-- slash, following their join ends where following the first path and then the second one, less that
-- slash, ends.
pub walk-join_paths :
    (dir : Directory) (a b : Bytes)
    → a ≢ []
    → is_absolute (drop_slash b) ≡ false
    → walk dir (join_paths a b) ≡ walk (walk dir a) (drop_slash b)
unfolding join_paths
walk-join_paths dir a b h loose =
    walk-make_canonical dir (join_two a b)
    ∙ (unfold walk in rw (is_absolute-join_two a b h, loose) (steps-join_two _ a b))
