-- ===== src/Cas/ContentHash/Tests.antt =====
-- Runs and instances for hashes and their texts.
use wake.Prelude.{
  ◌∷◌, Bytes, codes, length, All, ok, err, ◌≡◌, ◌≢◌, ◌↔◌, ◌⊎◌, true, false, refl, arith, map,
  replicate,
}
use wake.Cas.ContentHash.{
  ContentHash, IsHash, from_hex, to_hex, same, less, invalid_hex_char, invalid_hex_length,
}
use wake.Cas.ContentHash.Hex.{
  from_hex-to_hex, from_hex_complete, from_hex_rejects, IsHexDigit, lower,
}
use wake.Cas.ContentHash.Order.{same_iff, less_order}

abbrev hash_a : ContentHash
hash_a = record { content = replicate 32 0xa7 }

abbrev hash_b : ContentHash
hash_b = record { content = 1 ∷ replicate 31 0xa7 }

hash_a-IsHash : IsHash hash_a
hash_a-IsHash = omega arith

hash_b-IsHash : IsHash hash_b
hash_b-IsHash = omega arith

abbrev mixed_case : Bytes
mixed_case = codes "0123456789abcdefABCDEF012345678900112233445566778899aabbCCDDeeFF"

to_hex_runs :
    to_hex hash_b ≡ codes "01a7a7a7a7a7a7a7a7a7a7a7a7a7a7a7a7a7a7a7a7a7a7a7a7a7a7a7a7a7a7a7"
unfolding to_hex
to_hex_runs = refl

from_hex_short : from_hex (codes "a7") ≡ err invalid_hex_length
unfolding from_hex
from_hex_short = refl

from_hex-to_hex_example : from_hex (to_hex hash_a) ≡ ok hash_a
from_hex-to_hex_example = from_hex-to_hex hash_a hash_a-IsHash

mixed_case_digits : All IsHexDigit mixed_case
mixed_case_digits = omega arith

from_hex_complete_example :
    (h : ContentHash) × (from_hex mixed_case ≡ ok h) × IsHash h × (to_hex h ≡ map lower mixed_case)
from_hex_complete_example = from_hex_complete mixed_case refl mixed_case_digits

abbrev no_hex : Bytes
no_hex = replicate 64 b'g'

from_hex_rejects_example :
    (length no_hex ≢ 64 → from_hex no_hex ≡ err invalid_hex_length)
    × (length no_hex ≡ 64 → ¬ All IsHexDigit no_hex → from_hex no_hex ≡ err invalid_hex_char)
from_hex_rejects_example = from_hex_rejects no_hex

same_iff_example : (same hash_a hash_b ≡ true) ↔ (hash_a ≡ hash_b)
same_iff_example = same_iff hash_a hash_b hash_a-IsHash hash_b-IsHash

less_order_example :
    (less hash_a hash_a ≡ false)
    × (less hash_a hash_b ≡ true → less hash_b hash_a ≡ true → less hash_a hash_a ≡ true)
    × (hash_a ≢ hash_b → (less hash_a hash_b ≡ true) ⊎ (less hash_b hash_a ≡ true))
less_order_example = less_order hash_a hash_b hash_a hash_a-IsHash hash_b-IsHash
