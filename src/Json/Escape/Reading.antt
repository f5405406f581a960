-- ===== src/Json/Escape/Reading.antt =====
-- The strings of JSON (RFC 8259, section 7), as far as `json_escape` needs them: a reader that knows
-- the escapes it writes, on bytes.
use wake.Prelude.{
  ℕ, zero, suc, ◌+◌, ◌-◌, ◌*◌, Bytes, [], ◌∷◌, ◌++◌, Option, none, some, ltb, leb, ◌&&◌, ◌==◌,
  if◌then◌else◌, ◌≡◌,
}
use wake.Json.Escape.{escape_byte}

-- The value of a hexadecimal digit, in lower or upper case; other bytes are none.
unfoldable digit : ℕ → Option ℕ
digit d =
    if leb b'0' d && leb d b'9'
    then some (d - b'0')
    else if leb b'a' d && leb d b'f'
    then some (d + 10 - b'a')
    else if leb b'A' d && leb d b'F'
    then some (d + 10 - b'A')
    else none

abbrev pair_value : Option ℕ → Option ℕ → Option ℕ
pair_value none low = none
pair_value (some high) none = none
pair_value (some high) (some low) = some (high * 16 + low)

-- The byte that a letter behind a backslash stands for.
unfoldable letter : ℕ → Option ℕ
letter c =
    if c == b'"'
    then some b'"'
    else if c == b'\\'
    then some b'\\'
    else if c == b'/'
    then some b'/'
    else if c == b'b'
    then some 8
    else if c == b'f'
    then some 12
    else if c == b'n'
    then some 10
    else if c == b'r'
    then some 13
    else if c == b't'
    then some 9
    else none

-- "00" and two digits.
unfoldable hex_unit : Bytes → Option (ℕ × Bytes)
unfolding digit
hex_unit (d ∷ e ∷ f ∷ g ∷ s) =
    if d == b'0' && e == b'0'
    then elim (pair_value (digit f) (digit g)) [ none ↦ none | some b ↦ some (b, s) ]
    else none
hex_unit s = none

-- What stands behind a backslash.
unfoldable escaped_unit : Bytes → Option (ℕ × Bytes)
unfolding hex_unit letter
escaped_unit [] = none
escaped_unit (c ∷ s) =
    if c == b'u' then hex_unit s else elim (letter c) [ none ↦ none | some b ↦ some (b, s) ]

-- A unit of a string is an escape, or a byte that is no control character, no quote.
unfoldable read_unit : Bytes → Option (ℕ × Bytes)
unfolding escaped_unit
read_unit [] = none
read_unit (c ∷ s) =
    if c == b'\\'
    then escaped_unit s
    else if c == b'"'
    then none
    else if ltb c 0x20
    then none
    else some (c, s)

-- The string up to its closing quote, and what follows; the fuel bounds the units.
unfoldable pub read_string : ℕ → Bytes → Option (Bytes × Bytes)
unfolding read_unit
read_string zero s = none
read_string (suc fuel) [] = none
read_string (suc fuel) (c ∷ s) = if c == b'"' then some ([], s) else elim (read_unit (c ∷ s)) [
  | none ↦ none
  | some u ↦ elim (read_string fuel u.1) [ none ↦ none | some r ↦ some (u.0 ∷ r.0, r.1) ]
]

-- A property of all numbers below a bound.
abbrev Below : ℕ → (ℕ → Type 0) → Type 0
Below zero P = Unit
Below (suc n) P = P n × Below n P

-- A reader of a string that starts with what stands for a byte reads the byte and goes on.
abbrev ReadsBack : ℕ → Type 0
ReadsBack c =
    (fuel : ℕ) (rest : Bytes)
    → read_string (suc fuel) (escape_byte c ++ rest)
      ≡ (elim (read_string fuel rest) [ none ↦ none | some r ↦ some (c ∷ r.0, r.1) ])
