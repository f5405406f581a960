-- ===== src/Cas/ContentHash/Hex.antt =====
-- Hexadecimal text and hashes stand for each other.
use Prim.Native.Nat.{bit_and}
use wake.Prelude.{
  false, ℕ, zero, suc, ◌+◌, ◌-◌, ◌*◌, ◌/◌, ◌%◌, ◌<◌, ◌≤◌, [], ◌∷◌, Bool, true, not, ◌&&◌, Bytes,
  length, All, ok, err, leb, ◌==◌, ==_iff, ◌≡◌, ◌⊎◌, inl, inr, refl, ap₂, sym, ◌∙◌, ◌≢◌, arith, map,
  if◌then◌else◌, Bool-cases,
}
use wake.Cas.ContentHash.{
  ContentHash, invalid_hex_length, invalid_hex_char, hash_hex_len, nibble_to_hex, hex_to_nibble,
  join_nibbles, read_pairs, from_hex, write_pairs, to_hex, IsHash,
}

unfoldable pub passes : (ℕ → Bool) → ℕ → Bool
passes test zero = true
passes test (suc bound) = if test bound then passes test bound else false

pub passes_each :
    (test : ℕ → Bool) (bound k : ℕ) → passes test bound ≡ true → k < bound → test k ≡ true
unfolding passes
passes_each test zero k h l = absurd (omega arith)
passes_each test (suc bound) k h l = ground (arith, passes_each test bound k)

-- Writing a byte and reading it back, over all bytes.
byte_back : ℕ → Bool
byte_back b =
    let high = hex_to_nibble (nibble_to_hex (bit_and (b / 16) 0x0f)) in
    let low = hex_to_nibble (nibble_to_hex (bit_and b 0x0f)) in
    not (high == 0xff) && not (low == 0xff) && join_nibbles high low == b

byte_table : passes byte_back 256 ≡ true
unfolding passes byte_back hex_to_nibble nibble_to_hex join_nibbles
byte_table = refl

byte_round : (b : ℕ) → b < 256 → byte_back b ≡ true
byte_round b h = passes_each byte_back 256 b byte_table h

read_pairs-write_pairs :
    (bytes : Bytes) → All (λ b. b < 256) bytes → read_pairs (write_pairs bytes) ≡ ok bytes
unfolding read_pairs write_pairs byte_back
read_pairs-write_pairs [] h = refl
read_pairs-write_pairs (b ∷ bytes) h =
    ground (arith, byte_round b h.0, read_pairs-write_pairs bytes h.1)

pub length-write_pairs : (bytes : Bytes) → length (write_pairs bytes) ≡ 2 * length bytes
unfolding write_pairs
length-write_pairs [] = omega arith
length-write_pairs (b ∷ bytes) = omega (arith, length-write_pairs bytes)

-- Every hash of 32 bytes is read back from its hexadecimal text.
pub from_hex-to_hex : (h : ContentHash) → IsHash h → from_hex (to_hex h) ≡ ok h
unfolding from_hex to_hex
from_hex-to_hex h v =
    let full : (length (write_pairs h.content) == hash_hex_len) ≡ true =
      (==_iff _ _).1 (omega (arith, length-write_pairs h.content, v.full)) in
    rw (full, read_pairs-write_pairs h.content v.bytes)

abbrev pub IsHexDigit : ℕ → Type 0
IsHexDigit c = ((b'0' ≤ c) × (c ≤ b'9')) ⊎ ((b'a' ≤ c) × (c ≤ b'f')) ⊎ ((b'A' ≤ c) × (c ≤ b'F'))

-- The digit in lower case.
unfoldable pub lower : ℕ → ℕ
lower c = if leb b'A' c && leb c b'F' then c + 32 else c

digit_nibble :
    (c : ℕ) → IsHexDigit c → (hex_to_nibble c < 16) × (nibble_to_hex (hex_to_nibble c) ≡ lower c)
unfolding hex_to_nibble nibble_to_hex lower
digit_nibble c h = ground arith

nibble_digit : (c : ℕ) → hex_to_nibble c ≢ 0xff → IsHexDigit c
unfolding hex_to_nibble
nibble_digit c h = ground arith

pair_back : ℕ → Bool
pair_back x =
    (join_nibbles (x / 16) (x % 16) == x)
    && (bit_and (x / 16) 0x0f == x / 16)
    && (bit_and x 0x0f == x % 16)

pair_table : passes pair_back 256 ≡ true
unfolding passes pair_back join_nibbles
pair_table = refl

pair_parts :
    (x : ℕ)
    → x < 256
    → (join_nibbles (x / 16) (x % 16) ≡ x)
      × (bit_and (x / 16) 0x0f ≡ x / 16)
      × (bit_and x 0x0f ≡ x % 16)
unfolding pair_back
pair_parts x h = ground (arith, passes_each pair_back 256 x pair_table h)

-- A byte put together from two nibbles has those nibbles.
join_parts :
    (high low : ℕ)
    → high < 16
    → low < 16
    → (join_nibbles high low < 256)
      × (bit_and (join_nibbles high low / 16) 0x0f ≡ high)
      × (bit_and (join_nibbles high low) 0x0f ≡ low)
join_parts high low hh hl =
    let x = high * 16 + low in
    let e : high ≡ x / 16 = omega arith in
    let f : low ≡ x % 16 = omega arith in
    let (whole, top, bottom) = pair_parts x (omega arith) in
    let whole' : join_nibbles high low ≡ x = ap₂ join_nibbles e f ∙ whole in
    rw whole' (omega arith, top ∙ sym e, bottom ∙ sym f)

-- The bytes that a string of digits spells are written back as the digits in lower case.
record Read (hex bytes : Bytes) : Type 0 where
  in_range : All (λ b. b < 256) bytes
  written : write_pairs bytes ≡ map lower hex
  half : 2 * length bytes ≡ length hex

read_pairs_complete :
    (hex : Bytes) (n : ℕ)
    → length hex ≡ 2 * n
    → All IsHexDigit hex
    → (bytes : Bytes) × (read_pairs hex ≡ ok bytes) × Read hex bytes
unfolding read_pairs write_pairs
read_pairs_complete [] n l h =
    ([], refl, record { in_range = tt; written = refl; half = omega arith })
read_pairs_complete (c ∷ []) n l h = absurd (omega arith)
read_pairs_complete (c ∷ d ∷ hex) n l (hc, (hd, h)) =
    let (bytes, e, r) = read_pairs_complete hex (n - 1) (omega arith) h in
    let (hi, ci) = digit_nibble c hc in
    let (lo, di) = digit_nibble d hd in
    let (small, top, bottom) = join_parts (hex_to_nibble c) (hex_to_nibble d) hi lo in
    (
      join_nibbles (hex_to_nibble c) (hex_to_nibble d) ∷ bytes,
      ground (arith, e, hi, lo),
      record {
        in_range = (small, r.in_range);
        written = rw (top, bottom, ci, di, r.written);
        half = omega (arith, r.half);
      },
    )

-- Of 64 hexadecimal digits, in either case, `from_hex` makes a hash whose text is those digits in lower
-- case.
pub from_hex_complete :
    (hex : Bytes)
    → length hex ≡ 64
    → All IsHexDigit hex
    → (h : ContentHash) × (from_hex hex ≡ ok h) × IsHash h × (to_hex h ≡ map lower hex)
unfolding from_hex to_hex
from_hex_complete hex l h =
    let (bytes, e, r) = read_pairs_complete hex 32 l h in
    (
      record { content = bytes },
      rw (l, e),
      record { full = omega (arith, r.half); bytes = r.in_range },
      r.written,
    )

read_pairs_rejects :
    (hex : Bytes) (n : ℕ)
    → length hex ≡ 2 * n
    → ¬ All IsHexDigit hex
    → read_pairs hex ≡ err invalid_hex_char
unfolding read_pairs
read_pairs_rejects [] n l h = absurd (h tt)
read_pairs_rejects (c ∷ []) n l h = absurd (omega arith)
read_pairs_rejects (c ∷ d ∷ hex) n l h = elim (Bool-cases (hex_to_nibble c == 0xff)) [
  | inl e ↦ rw e
  | inr e ↦ elim (Bool-cases (hex_to_nibble d == 0xff)) [
    | inl f ↦ rw (e, f)
    | inr f ↦ rw (
      e,
      f,
      read_pairs_rejects hex (n - 1) (omega arith)
          (λ hs. h (nibble_digit c (ground arith), (nibble_digit d (ground arith), hs))),
    )
  ]
]

-- `from_hex` refuses all else: a text of another length for its length, and one of 64 characters that
-- are not all hexadecimal digits for its characters.
pub from_hex_rejects :
    (hex : Bytes)
    → (length hex ≢ 64 → from_hex hex ≡ err invalid_hex_length)
      × (length hex ≡ 64 → ¬ All IsHexDigit hex → from_hex hex ≡ err invalid_hex_char)
unfolding from_hex
from_hex_rejects hex = (wrong_length, λ l h. rw (l, read_pairs_rejects hex 32 l h))
  where
    wrong_length : length hex ≢ 64 → from_hex hex ≡ err invalid_hex_length
    wrong_length n = ground arith
