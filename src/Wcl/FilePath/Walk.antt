-- ===== src/Wcl/FilePath/Walk.antt =====
-- What a path means, told without `make_canonical`: a walk through directories, token by token. A
-- directory is the names on the way to it, the innermost first.
use mathlib.Core.List.{foldl}
use wake.Prelude.{
  ℕ, zero, suc, List, [], ◌∷◌, ◌++◌, Bool, Bool-cases, inl, inr, true, false, not, ◌||◌, Bytes,
  codes, bytes_eq, ◌≡◌, refl, ◌∙◌, sym, if◌then◌else◌,
}
use wake.Wcl.FilePath.Canonical.{is_absolute, make_canonical, pop_back, empty}
use wake.Wcl.FilePath.Tokens.{cut, Resolved, resolve_token, resolve, here}
use wake.Wcl.FilePath.Render.{is_absolute-make_canonical, resolve-make_canonical}

abbrev pub Directory : Type 0
Directory = List Bytes

-- The root is its own parent.
unfoldable pub parent : Directory → Directory
parent [] = []
parent (name ∷ dir) = dir

unfoldable pub step : Directory → Bytes → Directory
unfolding parent
step dir token =
    if bytes_eq token (codes "..")
    then parent dir
    else if bytes_eq token [] || bytes_eq token (codes ".")
    then dir
    else token ∷ dir

-- The directory or file that a path names, seen from a directory.
unfoldable pub walk : Directory → Bytes → Directory
walk dir path = foldl step (if is_absolute path then [] else dir) (cut path)

unfoldable pub up : ℕ → Directory → Directory
up zero dir = dir
up (suc n) dir = parent (up n dir)

unfoldable pub down : Directory → List Bytes → Directory
down dir [] = dir
down dir (t ∷ ts) = down (t ∷ dir) ts

unfoldable pub reach : Directory → Resolved → Directory
unfolding up down
reach dir r = down (up r.ups dir) r.names

down-concat :
    (dir : Directory) (ts : List Bytes) (t : Bytes) → down dir (ts ++ t ∷ []) ≡ t ∷ down dir ts
unfolding down
down-concat dir [] t = refl
down-concat dir (u ∷ ts) t = down-concat (u ∷ dir) ts t

parent-down :
    (dir : Directory) (ts : List Bytes)
    → empty ts ≡ false
    → parent (down dir ts) ≡ down dir (pop_back ts)
unfolding down pop_back parent empty
parent-down dir [] h = cc
parent-down dir (t ∷ []) h = refl
parent-down dir (t ∷ u ∷ ts) h = parent-down (t ∷ dir) (u ∷ ts) refl

-- Seen from the root, there is no way up.
abbrev Rooted : Bool → Directory → Resolved → Type 0
Rooted abs dir r = abs ≡ true → (dir ≡ []) × (r.ups ≡ 0)

leave : Bool → Resolved → Resolved
leave abs r =
    if not (empty r.names)
    then record r { names = pop_back r.names }
    else if not abs
    then record r { ups = suc r.ups }
    else r

parent-reach :
    (abs : Bool) (dir : Directory) (u : ℕ) (ns : List Bytes)
    → Rooted abs dir (record { ups = u; names = ns })
    → (parent (reach dir (record { ups = u; names = ns }))
        ≡ reach dir (leave abs (record { ups = u; names = ns })))
      × Rooted abs dir (leave abs (record { ups = u; names = ns }))
unfolding reach leave empty
parent-reach abs dir u (t ∷ ts) h = (parent-down (up u dir) (t ∷ ts) refl, h)
parent-reach true dir u [] h = (rw ((h refl).0, (h refl).1) (unfold parent in refl), h)
parent-reach false dir u [] h = (refl, λ e. cc)

step-reach :
    (abs : Bool) (dir : Directory) (r : Resolved) (t : Bytes)
    → Rooted abs dir r
    → (step (reach dir r) t ≡ reach dir (resolve_token abs r t))
      × Rooted abs dir (resolve_token abs r t)
unfolding step resolve_token leave
step-reach abs dir r t h = elim (Bool-cases (bytes_eq t (codes ".."))) [
  | inl e ↦ rw e (parent-reach abs dir r.ups r.names h)
  | inr e ↦ elim (Bool-cases (bytes_eq t [])) [
    | inl no_name ↦ rw (e, no_name) (refl, h)
    | inr some_byte ↦ elim (Bool-cases (bytes_eq t (codes "."))) [
      | inl dot ↦ rw (e, some_byte, dot) (refl, h)
      | inr other ↦
          rw (e, some_byte, other) ((unfold reach in sym (down-concat (up r.ups dir) r.names t)), h)
    ]
  ]
]

steps-reach :
    (abs : Bool) (dir : Directory) (r : Resolved) (ts : List Bytes)
    → Rooted abs dir r
    → foldl step (reach dir r) ts ≡ reach dir (foldl (resolve_token abs) r ts)
steps-reach abs dir r [] h = refl
steps-reach abs dir r (t ∷ ts) h =
    let (e, h') = step-reach abs dir r t h in
    rw e (steps-reach abs dir (resolve_token abs r t) ts h')

unfoldable pub origin : Bool → Directory → Directory
origin abs dir = if abs then [] else dir

pub walk-reach :
    (dir : Directory) (x : Bytes)
    → walk dir x ≡ reach (origin (is_absolute x) dir) (resolve (is_absolute x) x)
unfolding walk origin reach
walk-reach dir x =
    steps-reach (is_absolute x) (origin (is_absolute x) dir) here (cut x) (rooted (is_absolute x))
  where
    rooted : (abs : Bool) → Rooted abs (origin abs dir) here
    rooted true e = (refl, refl)
    rooted false e = cc

-- A canonical path names the same directory or file as the path it was made from, wherever one starts.
pub walk-make_canonical : (dir : Directory) (x : Bytes) → walk dir (make_canonical x) ≡ walk dir x
walk-make_canonical dir x =
    walk-reach dir (make_canonical x)
    ∙ rw (is_absolute-make_canonical x, resolve-make_canonical x) (sym (walk-reach dir x))
