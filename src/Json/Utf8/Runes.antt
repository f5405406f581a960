-- ===== src/Json/Utf8/Runes.antt =====
-- Code points and their sequences of bytes stand for each other.
use Prim.Native.Nat.{bit_and, bit_or, bit_xor}
use wake.Prelude.{
  ℕ, ◌+◌, ◌*◌, ◌/◌, ◌%◌, ◌^◌, ◌<◌, ◌≤◌, Bytes, [], ◌∷◌, ◌++◌, Bool, true, false, Bool-cases, inl,
  inr, some, length, ltb, leb, leb→le, ◌==◌, ◌&&◌, if◌then◌else◌, ◌≡◌, refl, ap, ap₂, ◌∙◌, arith,
}
use wake.Cas.ContentHash.Hex.{passes, passes_each}
use wake.Json.Utf8.{
  push_utf8, pop_utf8, pop_from, tail, tx, t2, t3, t4, rune1, rune2, rune3, rune4, six_bits,
  low_surrogate, end_surrogate,
}

-- The bit operations on bytes, as arithmetic.
mark_test : ℕ → Bool
mark_test y = bit_or 0x80 y == 0x80 + y && bit_xor (0x80 + y) 0x80 == y && bit_and y 0xc0 == 0

mark_table : passes mark_test 64 ≡ true
unfolding passes mark_test
mark_table = refl

first_test : ℕ → Bool
first_test x =
    (if ltb x 32 then bit_or 0xc0 x == 0xc0 + x else true)
    && (if ltb x 16 then bit_or 0xe0 x == 0xe0 + x else true)
    && (if ltb x 8 then bit_or 0xf0 x == 0xf0 + x else true)

first_table : passes first_test 32 ≡ true
unfolding passes first_test
first_table = refl

bits_below :
    (y : ℕ)
    → y < 64
    → (bit_or 0x80 y ≡ 0x80 + y) × (bit_xor (0x80 + y) 0x80 ≡ y) × (bit_and y 0xc0 ≡ 0)
unfolding mark_test
bits_below y h = ground (arith, passes_each mark_test 64 y mark_table h)

two_mark : (x : ℕ) → x < 32 → bit_or 0xc0 x ≡ 0xc0 + x
unfolding first_test
two_mark x h = ground (arith, passes_each first_test 32 x first_table h)

three_mark : (x : ℕ) → x < 16 → bit_or 0xe0 x ≡ 0xe0 + x
unfolding first_test
three_mark x h = ground (arith, passes_each first_test 32 x first_table (omega arith))

four_mark : (x : ℕ) → x < 8 → bit_or 0xf0 x ≡ 0xf0 + x
unfolding first_test
four_mark x h = ground (arith, passes_each first_test 32 x first_table (omega arith))

tail_lem : (c : ℕ) → tail c ≡ 0x80 + c % 2 ^ 6
tail_lem c = (bits_below (c % 64) (omega arith)).0

xor_tail : (c : ℕ) → bit_xor (tail c) 0x80 ≡ c % 2 ^ 6
xor_tail c = ap (λ t. bit_xor t 0x80) (tail_lem c) ∙ (bits_below (c % 64) (omega arith)).1

pop_one : (c : ℕ) (s : Bytes) → c ≤ rune1 → pop_utf8 (c ∷ s) ≡ some (c, 1)
unfolding pop_utf8
pop_one c s h = ground arith

pop_from_two :
    (x y c2 c3 : ℕ) → 2 ≤ x → x < 32 → y < 64 → pop_from (0xc0 + x) y c2 c3 ≡ some (x * 64 + y, 2)
unfolding pop_from
pop_from_two x y c2 c3 a b h = ground (arith, bits_below y h)

pop_from_three :
    (x y z c3 : ℕ)
    → x < 16
    → y < 64
    → z < 64
    → rune2 < (x * 64 + y) * 64 + z
    → pop_from (0xe0 + x) y z c3 ≡ some ((x * 64 + y) * 64 + z, 3)
unfolding pop_from
pop_from_three x y z c3 b h k l = ground (arith, bits_below y h, bits_below z k)

pop_from_four :
    (x y z w : ℕ)
    → x < 8
    → y < 64
    → z < 64
    → w < 64
    → rune3 < ((x * 64 + y) * 64 + z) * 64 + w
    → pop_from (0xf0 + x) y z w ≡ some (((x * 64 + y) * 64 + z) * 64 + w, 4)
unfolding pop_from
pop_from_four x y z w b h k m l = ground (arith, bits_below y h, bits_below z k, bits_below w m)

pop_two :
    (c : ℕ) (s : Bytes)
    → rune1 < c
    → c ≤ rune2
    → pop_utf8 (bit_or t2 (c / 2 ^ 6 % 256) ∷ tail c ∷ s) ≡ some (c, 2)
unfolding pop_utf8
pop_two c s l h =
    ap₂ (λ a b. pop_from a b (six_bits s 0) (six_bits s 1)) (two_mark (c / 64 % 256) (omega arith))
      (xor_tail c)
    ∙ pop_from_two (c / 64 % 256) (c % 64) _ _ (omega arith) (omega arith) (omega arith)
    ∙ ap (λ r. some (r, 2)) (omega arith)

pop_three :
    (c : ℕ) (s : Bytes)
    → rune2 < c
    → c ≤ rune3
    → pop_utf8 (bit_or t3 (c / 2 ^ 12 % 256) ∷ tail (c / 2 ^ 6) ∷ tail c ∷ s) ≡ some (c, 3)
unfolding pop_utf8
pop_three c s l h =
    ap₂ (λ a b. pop_from a b (bit_xor (tail c) tx) (six_bits s 0))
      (three_mark (c / 4096 % 256) (omega arith)) (xor_tail (c / 64))
    ∙ ap (λ b. pop_from (0xe0 + c / 4096 % 256) (c / 64 % 64) b (six_bits s 0)) (xor_tail c)
    ∙ pop_from_three (c / 4096 % 256) (c / 64 % 64) (c % 64) (six_bits s 0) (omega arith)
        (omega arith) (omega arith) (omega arith)
    ∙ ap (λ r. some (r, 3)) (omega arith)

pop_four :
    (c : ℕ) (s : Bytes)
    → rune3 < c
    → c ≤ rune4
    → pop_utf8 (bit_or t4 (c / 2 ^ 18 % 256) ∷ tail (c / 2 ^ 12) ∷ tail (c / 2 ^ 6) ∷ tail c ∷ s)
      ≡ some (c, 4)
unfolding pop_utf8
pop_four c s l h =
    ap₂ (λ a b. pop_from a b (bit_xor (tail (c / 64)) tx) (bit_xor (tail c) tx))
      (four_mark (c / 262144 % 256) (omega arith)) (xor_tail (c / 4096))
    ∙ ap₂ (λ a b. pop_from (0xf0 + c / 262144 % 256) (c / 4096 % 64) a b) (xor_tail (c / 64))
        (xor_tail c)
    ∙ pop_from_four (c / 262144 % 256) (c / 4096 % 64) (c / 64 % 64) (c % 64) (omega arith)
        (omega arith) (omega arith) (omega arith) (omega arith)
    ∙ ap (λ r. some (r, 4)) (omega arith)

leb_above : (a b : ℕ) → leb a b ≡ false → b < a
leb_above a b h = ground arith

-- Where `push_utf8` writes a code point, `pop_utf8` reads it back, with the number of bytes that
-- were written, whatever stands behind them.
pub pop_utf8-push_utf8 :
    (c : ℕ) (rest : Bytes)
    → (push_utf8 [] c).1 ≡ true
    → pop_utf8 ((push_utf8 [] c).0 ++ rest) ≡ some (c, length (push_utf8 [] c).0)
unfolding push_utf8
pop_utf8-push_utf8 c rest = elim (Bool-cases (leb c rune1)) [
  | inl a ↦ rw a (λ w. pop_one c rest (leb→le c rune1 a))
  | inr a ↦ elim (Bool-cases (leb c rune2)) [
    | inl b ↦ rw (a, b) (λ w. pop_two c rest (leb_above c rune1 a) (leb→le c rune2 b))
    | inr b ↦ elim (Bool-cases (leb c rune3)) [
      | inl d ↦ elim (Bool-cases (leb low_surrogate c && ltb c end_surrogate)) [
        | inl e ↦ rw (a, b, d, e) (λ w. absurd (cc w))
        | inr e ↦ rw (a, b, d, e) (λ w. pop_three c rest (leb_above c rune2 b) (leb→le c rune3 d))
      ]
      | inr d ↦ elim (Bool-cases (leb c rune4)) [
        | inl e ↦ rw (a, b, d, e) (λ w. pop_four c rest (leb_above c rune3 d) (leb→le c rune4 e))
        | inr e ↦ rw (a, b, d, e) (λ w. absurd (cc w))
      ]
    ]
  ]
]
