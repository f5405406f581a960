-- ===== src/Wcl/FilePath/RelativeWalk.antt =====
-- `relative_to` leads from one absolute path to the other.
use mathlib.Core.List.{foldl, tail}
use wake.Prelude.{
  ℕ, zero, suc, ◌≤◌, List, [], ◌∷◌, ◌++◌, append-nil, true, false, Bytes, codes, length,
  length-append, bytes_eq-false, All, ◌≡◌, refl, ap, ap₂, subst, ◌∙◌, sym, arith,
}
use wake.Wcl.FilePath.Iterator.{slash, FilepathIterator, next, begin, parts_from, join, split_path}
use wake.Wcl.FilePath.Canonical.{is_absolute, make_canonical}
use wake.Wcl.FilePath.Relative.{skip_common, climb, relative_to}
use wake.Wcl.FilePath.Tokens.{cut, add_to_first}
use wake.Wcl.FilePath.Places.{IsName, after_slash, cut_names}
use wake.Wcl.FilePath.Render.{is_absolute-make_canonical, loose_name}
use wake.Wcl.FilePath.Walk.{Directory, parent, step, walk, up, down}
use wake.Wcl.FilePath.Parts.{
  joined, IsBefore, begin-IsBefore, next-IsBefore, at_end-nil, at_end-cons, parts_from-IsBefore,
  length-pos,
}
use wake.Wcl.FilePath.Common.{Names-of, skip_common-Skipped}

dots : ℕ → Bytes
dots zero = []
dots (suc n) = codes "../" ++ dots n

climb-dots :
    (fuel : ℕ) (relative : Bytes) (r : FilepathIterator) (rs : List Bytes)
    → All IsName rs
    → IsBefore relative r rs
    → length rs ≤ fuel
    → climb fuel relative r ≡ dots (length rs)
unfolding climb dots
climb-dots zero relative r [] hs b l = refl
climb-dots zero relative r (n ∷ rs) hs b l = absurd (omega arith)
climb-dots (suc fuel) relative r [] hs b l = rw (at_end-nil relative r b)
climb-dots (suc fuel) relative r (n ∷ rs) hs b l = rw (at_end-cons relative r n rs hs.0 b) (
    ap (λ rest. codes "../" ++ rest)
      (climb-dots fuel relative (next relative r) rs hs.1 (next-IsBefore relative r n rs hs.0 b)
        (omega arith)))

join-joined : (ns : List Bytes) → join slash ns ≡ joined ns
unfolding join joined after_slash
join-joined [] = refl
join-joined (t ∷ []) = sym (append-nil t)
join-joined (t ∷ u ∷ ts) = ap (λ rest. t ++ slash ∷ rest) (join-joined (u ∷ ts))

up-parent : (n : ℕ) (d : Directory) → up n (parent d) ≡ parent (up n d)
unfolding up
up-parent zero d = refl
up-parent (suc n) d = ap parent (up-parent n d)

up-down : (d : Directory) (ns : List Bytes) → up (length ns) (down d ns) ≡ d
unfolding up down
up-down d [] = refl
up-down d (n ∷ ns) = ap parent (up-down (n ∷ d) ns) ∙ (unfold parent in refl)

down-append : (d : Directory) (xs ys : List Bytes) → down d (xs ++ ys) ≡ down (down d xs) ys
unfolding down
down-append d [] ys = refl
down-append d (x ∷ xs) ys = down-append (x ∷ d) xs ys

first_dots :
    (d : Directory) (t : Bytes)
    → foldl step d (cut (codes "../" ++ t)) ≡ foldl step (parent d) (cut t)
unfolding cut add_to_first step
first_dots d t = refl

steps-dots :
    (k : ℕ) (d : Directory) (t : Bytes)
    → foldl step d (cut (dots k ++ t)) ≡ foldl step (up k d) (cut t)
unfolding dots up
steps-dots zero d t = refl
steps-dots (suc k) d t =
    first_dots d (dots k ++ t)
    ∙ steps-dots k (parent d) t
    ∙ ap (λ e. foldl step e (cut t)) (up-parent k d)

step-name : (d : Directory) (n : Bytes) → IsName n → step d n ≡ n ∷ d
unfolding step
step-name d n h =
    rw (bytes_eq-false n _ h.not_dots, bytes_eq-false n _ h.some_byte, bytes_eq-false n _ h.not_dot)

steps-names : (d : Directory) (ns : List Bytes) → All IsName ns → foldl step d ns ≡ down d ns
unfolding down
steps-names d [] h = refl
steps-names d (n ∷ ns) h = rw (step-name d n h.0) (steps-names (n ∷ d) ns h.1)

steps-joined :
    (d : Directory) (ns : List Bytes) → All IsName ns → foldl step d (cut (joined ns)) ≡ down d ns
unfolding joined
steps-joined d [] h = unfold cut step down in refl
steps-joined d (n ∷ ns) h = rw (cut_names n ns h.0 h.1) (steps-names d (n ∷ ns) h)

dots-joined_loose :
    (k : ℕ) (ns : List Bytes) → All IsName ns → is_absolute (dots k ++ joined ns) ≡ false
unfolding dots joined
dots-joined_loose zero [] h = unfold is_absolute in refl
dots-joined_loose zero (n ∷ ns) h = loose_name n _ h.0
dots-joined_loose (suc k) ns h = unfold is_absolute in refl

All-rest {ℓ κ} :
    {A : Type ℓ} (P : A → Type κ) (xs ys zs : List A) → All P zs → zs ≡ xs ++ ys → All P ys
All-rest P [] ys zs h e = subst (All P) e h
All-rest P (x ∷ xs) ys [] h e = absurd (cc e)
All-rest P (x ∷ xs) ys (z ∷ zs) h e = All-rest P xs ys zs h.1 (ap tail e)

length-joined : (ns : List Bytes) → All IsName ns → length ns ≤ length (joined ns)
unfolding joined after_slash
length-joined [] h = omega arith
length-joined (n ∷ []) h = omega (arith, length-pos n h.0.some_byte, ap length (append-nil n))
length-joined (n ∷ m ∷ ns) h = omega (
  arith,
  length-pos n h.0.some_byte,
  length-append n (slash ∷ (m ++ after_slash ns)),
  length-joined (m ∷ ns) h.1,
)

assemble : Bytes → Bytes → Bytes
assemble relative path =
    let moved = skip_common (length path) path relative (begin path) (begin relative) in
    climb (length relative) relative moved.1 ++ join slash (parts_from (length path) path moved.0)

relative_to-assemble :
    (relative path : Bytes)
    → is_absolute path ≡ true
    → relative_to relative path ≡ assemble (make_canonical relative) (make_canonical path)
unfolding relative_to assemble
relative_to-assemble relative path h = rw (is_absolute-make_canonical path, h)

-- Up from the one path to what the two share, and down to the other.
record Route (text : Bytes) (rs ps : List Bytes) : Type 0 where
  shared : List Bytes
  up_from : List Bytes
  down_to : List Bytes
  start : rs ≡ shared ++ up_from
  goal : ps ≡ shared ++ down_to
  down_names : All IsName down_to
  written : text ≡ dots (length up_from) ++ joined down_to

assemble-Route :
    (rs ps : List Bytes)
    → All IsName rs
    → All IsName ps
    → Route (assemble (slash ∷ joined rs) (slash ∷ joined ps)) rs ps
unfolding assemble
assemble-Route rs ps hr hp =
    let relative = slash ∷ joined rs in
    let path = slash ∷ joined ps in
    let s =
      skip_common-Skipped (length path) path relative (begin path) (begin relative) ps rs hp hr
        (begin-IsBefore ps) (begin-IsBefore rs) in
    let up_names = All-rest IsName s.shared s.relative_rest rs hr s.relative_names in
    let down_names = All-rest IsName s.shared s.path_rest ps hp s.path_names in
    record {
      shared = s.shared;
      up_from = s.relative_rest;
      down_to = s.path_rest;
      start = s.relative_names;
      goal = s.path_names;
      down_names = down_names;
      written =
          ap₂ (λ a b. a ++ b)
            (climb-dots (length relative) relative _ s.relative_rest up_names s.relative_before (
              omega (
                arith,
                length-joined rs hr,
                ap length s.relative_names,
                length-append s.shared s.relative_rest,
              )))
            (ap (join slash) (
                parts_from-IsBefore (length path) path _ s.path_rest down_names s.path_before (
                  omega (
                    arith,
                    length-joined ps hp,
                    ap length s.path_names,
                    length-append s.shared s.path_rest,
                  )))
              ∙ join-joined s.path_rest);
    }

walk-Route :
    (text : Bytes) (rs ps : List Bytes) → Route text rs ps → walk (down [] rs) text ≡ down [] ps
unfolding walk
walk-Route text rs ps r =
    let k = length r.up_from in
    rw (r.written, r.start, r.goal, dots-joined_loose k r.down_to r.down_names)
      (steps-dots k _ (joined r.down_to)
        ∙ rw
            (
              down-append [] r.shared r.up_from,
              up-down (down [] r.shared) r.up_from,
              steps-joined (down [] r.shared) r.down_to r.down_names,
            )
            (sym (down-append [] r.shared r.down_to)))

-- For two absolute paths, following `relative_to(relative, path)` from where `relative` leads ends
-- where `path` leads.
pub walk-relative_to :
    (dir : Directory) (relative path : Bytes)
    → is_absolute relative ≡ true
    → is_absolute path ≡ true
    → walk (walk dir relative) (relative_to relative path) ≡ walk dir path
walk-relative_to dir relative path hr hp =
    let r = Names-of relative hr in
    let p = Names-of path hp in
    rw (r.walked dir, p.walked dir, relative_to-assemble relative path hp, r.spelled, p.spelled)
      (walk-Route _ r.names p.names (assemble-Route r.names p.names r.are_names p.are_names))

split_path-joined : (ns : List Bytes) → All IsName ns → split_path (slash ∷ joined ns) ≡ ns
unfolding split_path
split_path-joined ns h =
    parts_from-IsBefore (length (slash ∷ joined ns)) _ _ ns h (begin-IsBefore ns)
      (omega (arith, length-joined ns h))

-- The canonical form of an absolute path is a slash and the parts that `split_path` finds in it, with
-- slashes between them.
pub join-split_path :
    (x : Bytes)
    → is_absolute x ≡ true
    → make_canonical x ≡ slash ∷ join slash (split_path (make_canonical x))
join-split_path x h =
    let r = Names-of x h in
    rw (r.spelled, split_path-joined r.names r.are_names, join-joined r.names)
