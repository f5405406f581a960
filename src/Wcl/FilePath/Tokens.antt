-- ===== src/Wcl/FilePath/Tokens.antt =====
-- The tokens of a path, and the scan of `make_canonical` as a fold over them.
use mathlib.Core.List.{foldl}
use wake.Prelude.{
  ℕ, zero, suc, ◌+◌, ◌<◌, List, [], ◌∷◌, ◌++◌, Bool, true, false, not, ◌&&◌, Option, Option-cases,
  inl, inr, none, some, Bytes, codes, length, bytes_eq, ◌==◌, ◌≡◌, refl, ap, ◌∙◌, arith,
  if◌then◌else◌,
}
use wake.Wcl.FilePath.Iterator.{slash}
use wake.Wcl.FilePath.Canonical.{
  is_absolute, next_token, Scan, pop_back, empty, take_token, scan_tokens, finish, make_canonical,
}

unfoldable pub add_to_first : ℕ → List Bytes → List Bytes
add_to_first c [] = (c ∷ []) ∷ []
add_to_first c (t ∷ ts) = (c ∷ t) ∷ ts

-- The path cut at every slash.
unfoldable pub cut : Bytes → List Bytes
unfolding add_to_first
cut [] = [] ∷ []
cut (c ∷ rest) = if c == slash then [] ∷ cut rest else add_to_first c (cut rest)

abbrev pub more_tokens : Option Bytes → List Bytes
more_tokens none = []
more_tokens (some rest) = cut rest

pub cut-next_token : (x : Bytes) → cut x ≡ (next_token x).0 ∷ more_tokens (next_token x).1
unfolding cut next_token
cut-next_token [] = refl
cut-next_token (c ∷ x) = ground (arith, cut-next_token x)

next_token_shrinks : (x rest : Bytes) → (next_token x).1 ≡ some rest → length rest < length x
unfolding next_token
next_token_shrinks [] rest h = cc
next_token_shrinks (c ∷ x) rest h = ground (arith, next_token_shrinks x rest)

scan_tokens-foldl :
    (fuel : ℕ) (abs : Bool) (x : Bytes) (s : Scan)
    → length x < fuel
    → scan_tokens fuel abs x s ≡ foldl (take_token abs) s (cut x)
unfolding scan_tokens
scan_tokens-foldl zero abs x s h = absurd (omega arith)
scan_tokens-foldl (suc fuel) abs x s h = elim (Option-cases (next_token x).1) [
  | inl e ↦ rw (cut-next_token x, e, scan_tokens)
  | inr (rest, e) ↦
      rw (cut-next_token x, e, scan_tokens)
        (scan_tokens-foldl fuel abs rest (take_token abs s (next_token x).0)
          (omega (arith, next_token_shrinks x rest e)))
]

-- What is known of the place where a prefix of the path leads: levels up, then names down.
pub record Resolved : Type 0 where
  pub ups : ℕ
  pub names : List Bytes

unfoldable pub resolve_token : Bool → Resolved → Bytes → Resolved
unfolding pop_back empty
resolve_token abs r token =
    if bytes_eq token (codes "..")
    then (if not (empty r.names)
        then record r { names = pop_back r.names }
        else if not abs
        then record r { ups = suc r.ups }
        else r)
    else if not (bytes_eq token []) && not (bytes_eq token (codes "."))
    then record r { names = r.names ++ token ∷ [] }
    else r

abbrev pub here : Resolved
here = record { ups = 0; names = [] }

abbrev pub resolve : Bool → Bytes → Resolved
resolve abs x = foldl (resolve_token abs) here (cut x)

unfoldable pub ups_text : ℕ → Bytes
ups_text zero = []
ups_text (suc n) = ups_text n ++ codes "../"

positive : ℕ → Bool
positive zero = false
positive (suc n) = true

-- The state of the scan at such a place.
unfoldable pub scan_at : Bool → Resolved → Scan
unfolding ups_text positive
scan_at abs r = record {
  str = (if abs then codes "/" else []) ++ ups_text r.ups;
  tokens = r.names;
  pop = positive r.ups;
}

take_token-scan_at :
    (abs : Bool) (r : Resolved) (token : Bytes)
    → take_token abs (scan_at abs r) token ≡ scan_at abs (resolve_token abs r token)
unfolding take_token scan_at resolve_token
take_token-scan_at true r token = ground arith
take_token-scan_at false r token = ground arith

foldl-scan_at :
    (abs : Bool) (r : Resolved) (ts : List Bytes)
    → foldl (take_token abs) (scan_at abs r) ts ≡ scan_at abs (foldl (resolve_token abs) r ts)
foldl-scan_at abs r [] = refl
foldl-scan_at abs r (t ∷ ts) =
    rw (take_token-scan_at abs r t) (foldl-scan_at abs (resolve_token abs r t) ts)

-- The canonical path that leads to a place.
unfoldable pub render : Bool → Resolved → Bytes
unfolding finish scan_at
render abs r = finish abs (scan_at abs r)

start-scan_at :
    (abs : Bool)
    → record { str = if abs then codes "/" else []; tokens = []; pop = false } ≡ scan_at abs here
unfolding scan_at
start-scan_at true = refl
start-scan_at false = refl

-- `make_canonical` resolves the tokens and writes down the place.
pub make_canonical-render :
    (x : Bytes) → make_canonical x ≡ render (is_absolute x) (resolve (is_absolute x) x)
unfolding make_canonical render
make_canonical-render x =
    let abs = is_absolute x in
    ap (finish abs) {y = scan_at abs (resolve abs x)} (
      scan_tokens-foldl (length x + 1) abs x _ (omega arith)
      ∙ rw (start-scan_at abs) (foldl-scan_at abs here (cut x)))
