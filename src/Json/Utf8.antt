-- ===== src/Json/Utf8.antt =====
-- `push_utf8` and `pop_utf8` of src/json/utf8.cpp. A shift by 6, 12 or 18 places is written as a
-- division or a product, a mask of k ones as `% 2 ^ k`, and `|` as a sum where it sets six bits behind
-- a shift by six. A C string is the bytes before its terminator.
pub mod Runes
pub mod Tests
use Prim.Native.Nat.{bit_and, bit_or, bit_xor}
use wake.Prelude.{
  ◌+◌, ℕ, ◌*◌, ◌/◌, ◌%◌, ◌^◌, Bytes, [], ◌∷◌, ◌++◌, Bool, true, false, not, Option, none, some,
  get_elem?, ltb, leb, ◌==◌, ◌&&◌, if◌then◌else◌, ◌≡◌, refl,
}

-- Tx, T2, T3, T4 and T5, the marks of the bytes of a sequence.
abbrev tx : ℕ
tx = 0x80

abbrev t2 : ℕ
t2 = 0xc0

abbrev t3 : ℕ
t3 = 0xe0

abbrev t4 : ℕ
t4 = 0xf0

abbrev t5 : ℕ
t5 = 0xf8

-- The largest code points of one, two, three and four bytes.
abbrev rune1 : ℕ
rune1 = 0x7f

abbrev rune2 : ℕ
rune2 = 0x7ff

abbrev rune3 : ℕ
rune3 = 0xffff

abbrev rune4 : ℕ
rune4 = 0x1fffff

abbrev testx : ℕ
testx = 0xc0

abbrev low_surrogate : ℕ
low_surrogate = 0xd800

abbrev end_surrogate : ℕ
end_surrogate = 0xe000

-- The byte behind the first that has the lowest six bits.
abbrev tail : ℕ → ℕ
tail c = bit_or tx (c % 2 ^ 6)

-- The string, and whether the code point could be written.
unfoldable pub push_utf8 : Bytes → ℕ → Bytes × Bool
push_utf8 result c =
    if leb c rune1
    then (result ++ c ∷ [], true)
    else if leb c rune2
    then (result ++ bit_or t2 (c / 2 ^ 6 % 256) ∷ tail c ∷ [], true)
    else if leb c rune3
    then (if leb low_surrogate c && ltb c end_surrogate
        then (result, false)
        else (result ++ bit_or t3 (c / 2 ^ 12 % 256) ∷ tail (c / 2 ^ 6) ∷ tail c ∷ [], true))
    else if leb c rune4
    then (
      result ++ bit_or t4 (c / 2 ^ 18 % 256) ∷ tail (c / 2 ^ 12) ∷ tail (c / 2 ^ 6) ∷ tail c ∷ [],
      true,
    )
    else (result, false)

-- s[i], which is the terminator behind the last byte.
abbrev byte_at : Bytes → ℕ → ℕ
byte_at s i = elim (get_elem? s i) [ none ↦ 0 | some b ↦ b ]

-- The six bits of a byte behind the first; a byte of another kind keeps a bit that `testx` has.
abbrev six_bits : Bytes → ℕ → ℕ
six_bits s i = bit_xor (byte_at s i) tx

-- The code point of a sequence and its length, unless a shorter sequence would do.
abbrev longer_than : ℕ → ℕ → ℕ → Option (ℕ × ℕ)
longer_than shorter l n = if leb l shorter then none else some (l, n)

-- The tests, in their order, on the first byte and the six bits of the next three.
unfoldable pop_from : ℕ → ℕ → ℕ → ℕ → Option (ℕ × ℕ)
pop_from c c1 c2 c3 =
    let l2 = c * 2 ^ 6 + c1 in
    let l3 = l2 * 2 ^ 6 + c2 in
    let l4 = l3 * 2 ^ 6 + c3 in
    if ltb c tx
    then some (c, 1)
    else if not (bit_and c1 testx == 0)
    then none
    else if ltb c t3
    then (if ltb c t2 then none else longer_than rune1 (l2 % 2 ^ 11) 2)
    else if not (bit_and c2 testx == 0)
    then none
    else if ltb c t4
    then longer_than rune2 (l3 % 2 ^ 16) 3
    else if not (bit_and c3 testx == 0)
    then none
    else if ltb c t5
    then longer_than rune3 (l4 % 2 ^ 21) 4
    else none

unfoldable pub pop_utf8 : Bytes → Option (ℕ × ℕ)
unfolding pop_from
pop_utf8 s = pop_from (byte_at s 0) (six_bits s 1) (six_bits s 2) (six_bits s 3)
