-- ===== src/Cas/ContentHash.antt =====
-- src/cas/content_hash.h and content_hash.cpp. A hash is the 32 bytes that its four words hold.
pub mod Hex
pub mod Order
mod Tests
use Prim.Native.Nat.{bit_and, bit_or}
use wake.Prelude.{
  ℕ, zero, suc, ◌+◌, ◌-◌, ◌*◌, ◌/◌, ◌%◌, ◌<◌, ◌≤◌, List, [], ◌∷◌, Bool, true, false, not, ◌&&◌,
  ◌||◌, Bytes, codes, length, take, drop, All, Result, ok, err, ltb, leb, ◌==◌, ◌≡◌, refl, ap,
  arith, bytes_eq, if◌then◌else◌,
}

pub data ContentHashError : Type 0 where
  invalid_hex_length invalid_hex_char : ContentHashError

abbrev pub hash_bits_len : ℕ
hash_bits_len = 256

abbrev pub hash_hex_len : ℕ
hash_hex_len = hash_bits_len / 4

pub record ContentHash : Type 0 where
  pub content : Bytes

unfoldable pub nibble_to_hex : ℕ → ℕ
nibble_to_hex nibble = if ltb nibble 10 then b'0' + nibble else b'a' + nibble - 10

unfoldable pub hex_to_nibble : ℕ → ℕ
hex_to_nibble hex =
    if leb b'0' hex && leb hex b'9'
    then hex - b'0'
    else if leb b'a' hex && leb hex b'f'
    then hex - b'a' + 10
    else if leb b'A' hex && leb hex b'F'
    then hex - b'A' + 10
    else 0xff

-- (high << 4) | low, cut to a byte
unfoldable pub join_nibbles : ℕ → ℕ → ℕ
join_nibbles high low = bit_or (high * 16) low % 256

-- The loop over the pairs of characters; the length is even here.
unfoldable pub read_pairs : Bytes → Result ContentHashError Bytes
unfolding hex_to_nibble join_nibbles
read_pairs [] = ok []
read_pairs (c ∷ []) = ok []
read_pairs (c ∷ d ∷ hex) =
    let high = hex_to_nibble c in
    let low = hex_to_nibble d in
    let rest = read_pairs hex in
    if high == 0xff || low == 0xff
    then err invalid_hex_char
    else elim rest [ ok bytes ↦ ok (join_nibbles high low ∷ bytes) | err e ↦ err e ]

unfoldable pub from_hex : Bytes → Result ContentHashError ContentHash
unfolding read_pairs
from_hex hex =
    if not (length hex == hash_hex_len)
    then err invalid_hex_length
    else elim (read_pairs hex) [ ok bytes ↦ ok (record { content = bytes }) | err e ↦ err e ]

unfoldable pub write_pairs : Bytes → Bytes
unfolding nibble_to_hex
write_pairs [] = []
write_pairs (b ∷ bytes) =
    nibble_to_hex (bit_and (b / 16) 0x0f) ∷ nibble_to_hex (bit_and b 0x0f) ∷ write_pairs bytes

unfoldable pub to_hex : ContentHash → Bytes
unfolding write_pairs
to_hex h = write_pairs h.content

-- A word of `data`, on a little-endian machine.
word : Bytes → ℕ
word [] = 0
word (b ∷ bytes) = b + 256 * word bytes

unfoldable pub words : ℕ → Bytes → List ℕ
unfolding word
words zero bytes = []
words (suc n) bytes = word (take 8 bytes) ∷ words n (drop 8 bytes)

-- std::equal over the words
unfoldable pub equal : List ℕ → List ℕ → Bool
equal [] [] = true
equal (a ∷ s) (b ∷ t) = a == b && equal s t
equal _ _ = false

-- std::lexicographical_compare over the words
unfoldable pub lexicographical_less : List ℕ → List ℕ → Bool
lexicographical_less [] [] = false
lexicographical_less [] (b ∷ t) = true
lexicographical_less (a ∷ s) [] = false
lexicographical_less (a ∷ s) (b ∷ t) =
    let rest = lexicographical_less s t in if ltb a b then true else if ltb b a then false else rest

-- operator== and operator<
unfoldable pub same : ContentHash → ContentHash → Bool
unfolding equal words
same a b = equal (words 4 a.content) (words 4 b.content)

unfoldable pub less : ContentHash → ContentHash → Bool
unfolding lexicographical_less words
less a b = lexicographical_less (words 4 a.content) (words 4 b.content)

-- A hash fills its words.
pub record IsHash (h : ContentHash) : Type 0 where
  pub full : length h.content ≡ 32
  pub bytes : All (λ b. b < 256) h.content
