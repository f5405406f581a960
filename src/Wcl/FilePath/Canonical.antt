-- ===== src/Wcl/FilePath/Canonical.antt =====
-- `make_canonical`, `_join_paths` (here `join_two`), `join_paths` and `is_absolute` of src/wcl/filepath.h.
use wake.Prelude.{
  ℕ, zero, suc, ◌+◌, ◌-◌, List, [], ◌∷◌, ◌++◌, Bool, true, false, not, ◌&&◌, Option, none, some,
  Bytes, codes, length, take, bytes_eq, ◌==◌, if◌then◌else◌,
}
use wake.Wcl.FilePath.Iterator.{slash}

-- x[0] == '/'; the first byte of an empty string is its terminator.
unfoldable pub is_absolute : Bytes → Bool
is_absolute [] = false
is_absolute (c ∷ rest) = c == slash

-- The token up to the next slash, and what follows that slash, if there is one.
unfoldable pub next_token : Bytes → Bytes × Option Bytes
next_token [] = ([], none)
next_token (c ∷ rest) =
    let (token, after) = next_token rest in
    if c == slash then ([], some rest) else (c ∷ token, after)

pub record Scan : Type 0 where
  pub str : Bytes
  pub tokens : List Bytes
  pub pop : Bool

-- The last element of a vector stands last; the code asks `empty` before.
unfoldable pub pop_back : List Bytes → List Bytes
pop_back [] = []
pop_back (t ∷ []) = []
pop_back (t ∷ u ∷ ts) = t ∷ pop_back (u ∷ ts)

unfoldable pub empty : List Bytes → Bool
empty [] = true
empty (t ∷ ts) = false

-- One round of the loop over the tokens.
unfoldable pub take_token : Bool → Scan → Bytes → Scan
unfolding pop_back empty
take_token abs s token =
    if bytes_eq token (codes "..")
    then (if not (empty s.tokens)
        then record s { tokens = pop_back s.tokens }
        else if not abs
        then record s { str = s.str ++ codes "../"; pop = true }
        else s)
    else if not (bytes_eq token []) && not (bytes_eq token (codes "."))
    then record s { tokens = s.tokens ++ token ∷ [] }
    else s

-- Each round but the last drops a slash, so the length and one more is fuel enough.
unfoldable pub scan_tokens : ℕ → Bool → Bytes → Scan → Scan
unfolding next_token take_token
scan_tokens zero abs x s = s
scan_tokens (suc fuel) abs x s = elim (next_token x).1 [
  | none ↦ take_token abs s (next_token x).0
  | some rest ↦ scan_tokens fuel abs rest (take_token abs s (next_token x).0)
]

-- `for (i = tokens.begin() + 1; ...) str << "/" << *i`
unfoldable pub write_tokens : Bytes → List Bytes → Bytes
write_tokens str [] = str
write_tokens str (t ∷ ts) = write_tokens (str ++ slash ∷ t) ts

unfoldable pub finish : Bool → Scan → Bytes
unfolding write_tokens
finish abs s = elim s.tokens [
  | [] ↦ if abs then codes "/" else if s.pop then take (length s.str - 1) s.str else codes "."
  | t ∷ ts ↦ write_tokens (s.str ++ t) ts
]

unfoldable pub make_canonical : Bytes → Bytes
unfolding scan_tokens finish is_absolute
make_canonical x =
    let abs = is_absolute x in
    finish abs (
      scan_tokens (length x + 1) abs x
        (record { str = if abs then codes "/" else []; tokens = []; pop = false }))

-- a.back() != '/'
unfoldable pub ends_open : Bytes → Bool
ends_open [] = true
ends_open (c ∷ []) = not (c == slash)
ends_open (c ∷ d ∷ rest) = ends_open (d ∷ rest)

unfoldable pub drop_slash : Bytes → Bytes
drop_slash [] = []
drop_slash (c ∷ rest) = if c == slash then rest else c ∷ rest

unfoldable pub join_two : Bytes → Bytes → Bytes
unfolding ends_open drop_slash
join_two a b = (if ends_open a then a ++ slash ∷ [] else a) ++ drop_slash b

unfoldable pub join_paths : Bytes → Bytes → Bytes
unfolding make_canonical join_two
join_paths a b = make_canonical (join_two a b)
