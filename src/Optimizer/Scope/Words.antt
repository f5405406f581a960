-- ===== src/Optimizer/Scope/Words.antt =====
-- The words of arguments: the offset above the depth.
use Prim.Native.Nat.{bit_or, digits, bit_or-bitwise}
use wake.Prelude.{
  ℕ, zero, suc, ◌+◌, ◌*◌, ◌/◌, ◌%◌, ◌^◌, ◌≤◌, ◌<◌, max, ◌≡◌, refl, sym, ◌∙◌, ap, arith,
}
use wake.Optimizer.Scope.{make_arg, arg_depth, arg_offset}

-- The digits of the union of two numbers, with the digits of the second one where the first one ends.
abbrev or_digits : ℕ → ℕ → ℕ → ℕ
or_digits n a b = digits (λ b. b) max n a b

or_digits_enough : (n m a b : ℕ) → a ≤ n → a ≤ m → or_digits n a b ≡ or_digits m a b
or_digits_enough zero zero a b p q = refl
or_digits_enough zero (suc m) zero b p q = refl
or_digits_enough zero (suc m) (suc a) b p q = absurd (omega arith)
or_digits_enough (suc n) zero zero b p q = refl
or_digits_enough (suc n) zero (suc a) b p q = absurd (omega arith)
or_digits_enough (suc n) (suc m) zero b p q = refl
or_digits_enough (suc n) (suc m) (suc a) b p q =
    let i = or_digits_enough n m (suc a / 2) (b / 2) (omega arith) (omega arith) in omega arith

zero-bit_or : (b : ℕ) → bit_or 0 b ≡ b
zero-bit_or b = bit_or-bitwise 0 b

bit_or_step : (a b : ℕ) → bit_or a b ≡ bit_or (a / 2) (b / 2) * 2 + max (a % 2) (b % 2)
bit_or_step zero b = let i = zero-bit_or b in let j = zero-bit_or (b / 2) in omega arith
bit_or_step (suc a) b =
    let i = bit_or-bitwise (suc a) b in
    let j = bit_or-bitwise (suc a / 2) (b / 2) in
    let k = or_digits_enough a (suc a / 2) (suc a / 2) (b / 2) (omega arith) (omega arith) in
    omega arith

bit_or-zero_enough : (n a : ℕ) → a ≤ n → bit_or a 0 ≡ a
bit_or-zero_enough n zero h = refl
bit_or-zero_enough zero (suc a) h = absurd (omega arith)
bit_or-zero_enough (suc n) (suc a) h =
    let i = bit_or_step (suc a) 0 in
    let j = bit_or-zero_enough n (suc a / 2) (omega arith) in omega arith

power_suc : (k : ℕ) → 2 ^ suc k ≡ 2 ^ k * 2
power_suc k = omega arith

double : (a : ℕ) → a * 2 / 2 ≡ a
double a = omega arith

regroup : (a p : ℕ) → a * (p * 2) ≡ a * p * 2
regroup a p = grind arith

-- A number below a power of two beside a multiple of it.
pub bit_or-shifted : (k a d : ℕ) → d < 2 ^ k → bit_or (a * 2 ^ k) d ≡ a * 2 ^ k + d
bit_or-shifted zero a d h =
    let e : d ≡ 0 = omega arith in
    ap (bit_or (a * 1)) e ∙ bit_or-zero_enough (a * 1) (a * 1) (omega arith) ∙ omega arith
bit_or-shifted (suc k) a d h =
    let m : ℕ = a * 2 ^ k in
    let shifted : a * 2 ^ suc k ≡ m * 2 = ap (λ p. a * p) (power_suc k) ∙ regroup a (2 ^ k) in
    let i : bit_or m (d / 2) ≡ m + d / 2 =
      bit_or-shifted k a (d / 2) (let p = power_suc k in omega arith) in
    ap (λ n. bit_or n d) shifted
    ∙ bit_or_step (m * 2) d
    ∙ ap (λ n. bit_or n (d / 2) * 2 + max (m * 2 % 2) (d % 2)) (double m)
    ∙ sum m d (bit_or m (d / 2)) i
    ∙ ap (λ n. n + d) (sym shifted)
  where
    sum : (m d o : ℕ) → o ≡ m + d / 2 → o * 2 + max (m * 2 % 2) (d % 2) ≡ m * 2 + d
    sum m d o e = omega arith

-- A depth below 2 ^ 16 and an offset below 2 ^ 48 can be read back.
pub make_arg_lem :
    (depth offset : ℕ)
    → depth < 2 ^ 16
    → offset < 2 ^ 48
    → (make_arg depth offset ≡ offset * 2 ^ 16 + depth)
      × (arg_depth (make_arg depth offset) ≡ depth)
      × (arg_offset (make_arg depth offset) ≡ offset)
make_arg_lem depth offset h k =
    let e : offset * 2 ^ 16 % 2 ^ 64 ≡ offset * 2 ^ 16 = omega arith in
    let w : make_arg depth offset ≡ offset * 2 ^ 16 + depth =
      ap (λ n. bit_or n depth) e ∙ bit_or-shifted 16 offset depth h in
    (w, ap arg_depth w ∙ omega arith, ap arg_offset w ∙ omega arith)
