-- ===== src/Optimizer/Usage/Counts.antt =====
-- The counters of src/optimizer/usage.cpp: what counting and popping do at each position.
use wake.Prelude.{ℕ, zero, suc, ◌<◌, ◌≤◌, List, [], ◌∷◌, length, ◌≡◌, refl, ap, arith}
use wake.Optimizer.Usage.{count_use, count_all, last_count, pop_scope}

-- The counter at a position, 0 behind the end.
abbrev pub uses_at : List ℕ → ℕ → ℕ
uses_at [] x = 0
uses_at (n ∷ scope) zero = n
uses_at (n ∷ scope) (suc x) = uses_at scope x

pub length-count_use : (x : ℕ) (scope : List ℕ) → length (count_use x scope) ≡ length scope
length-count_use x [] = refl
length-count_use zero (n ∷ scope) = refl
length-count_use (suc x) (n ∷ scope) = ap suc (length-count_use x scope)

pub length-count_all : (args scope : List ℕ) → length (count_all args scope) ≡ length scope
length-count_all [] scope = refl
length-count_all (x ∷ args) scope =
    rw (length-count_all args (count_use x scope)) (length-count_use x scope)

pub length-pop_scope :
    (scope : List ℕ) (n : ℕ) → length scope ≡ suc n → length (pop_scope scope) ≡ n
length-pop_scope [] n e = omega arith
length-pop_scope (m ∷ []) n e = omega arith
length-pop_scope (m ∷ k ∷ scope) zero e = omega arith
length-pop_scope (m ∷ k ∷ scope) (suc n) e =
    let i : length (pop_scope (k ∷ scope)) ≡ n = length-pop_scope (k ∷ scope) n (omega arith) in
    ap suc i

pub uses_at-count_use : (x y : ℕ) (scope : List ℕ) → uses_at scope y ≤ uses_at (count_use x scope) y
uses_at-count_use x y [] = omega arith
uses_at-count_use zero zero (n ∷ scope) = omega arith
uses_at-count_use zero (suc y) (n ∷ scope) = omega arith
uses_at-count_use (suc x) zero (n ∷ scope) = omega arith
uses_at-count_use (suc x) (suc y) (n ∷ scope) = uses_at-count_use x y scope

pub uses_at-count_use_self :
    (x : ℕ) (scope : List ℕ) → x < length scope → 0 < uses_at (count_use x scope) x
uses_at-count_use_self x [] h = omega arith
uses_at-count_use_self zero (n ∷ scope) h = omega arith
uses_at-count_use_self (suc x) (n ∷ scope) h = uses_at-count_use_self x scope (omega arith)

pub uses_at-count_all :
    (args : List ℕ) (y : ℕ) (scope : List ℕ) → uses_at scope y ≤ uses_at (count_all args scope) y
uses_at-count_all [] y scope = omega arith
uses_at-count_all (x ∷ args) y scope =
    let a = uses_at-count_use x y scope in
    let b = uses_at-count_all args y (count_use x scope) in omega arith

pub uses_at-pop_scope :
    (scope : List ℕ) (n x : ℕ)
    → length scope ≡ suc n
    → x < n
    → uses_at (pop_scope scope) x ≡ uses_at scope x
uses_at-pop_scope [] n x e h = omega arith
uses_at-pop_scope (m ∷ []) n x e h = omega arith
uses_at-pop_scope (m ∷ k ∷ scope) n zero e h = refl
uses_at-pop_scope (m ∷ k ∷ scope) zero (suc x) e h = omega arith
uses_at-pop_scope (m ∷ k ∷ scope) (suc n) (suc x) e h =
    uses_at-pop_scope (k ∷ scope) n x (omega arith) (omega arith)

pub uses_at-last :
    (scope : List ℕ) (n : ℕ) → length scope ≡ suc n → uses_at scope n ≡ last_count scope
uses_at-last [] n e = omega arith
uses_at-last (m ∷ []) zero e = refl
uses_at-last (m ∷ []) (suc n) e = omega arith
uses_at-last (m ∷ k ∷ scope) zero e = omega arith
uses_at-last (m ∷ k ∷ scope) (suc n) e = uses_at-last (k ∷ scope) n (omega arith)

-- Behind the end nothing is counted.
pub uses_at_inside : (scope : List ℕ) (x : ℕ) → 0 < uses_at scope x → x < length scope
uses_at_inside [] x h = omega arith
uses_at_inside (n ∷ scope) zero h = omega arith
uses_at_inside (n ∷ scope) (suc x) h = let i = uses_at_inside scope x h in omega arith
