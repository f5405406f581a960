-- ===== src/Wcl/Diff/Measure.antt =====
-- The positions that the search under src/wcl/diff.h has not visited, counted.
use wake.Prelude.{
  ℕ, zero, suc, ◌+◌, ◌*◌, ◌<◌, ◌≤◌, List, [], ◌∷◌, ◌++◌, Bool, true, false, Bool-cases, inl, inr,
  ◌||◌, ◌&&◌, length, length-append, ◌==◌, ==_iff, ==_refl, if◌then◌else◌, ◌≡◌, refl, ap, ap₂, sym,
  ◌∙◌, subst, arith,
}
use wake.Wcl.Diff.{seen}

abbrev pub Positions : Type 0
Positions = List (ℕ × ℕ)

abbrev unseen : ℕ → ℕ → Positions → ℕ
unseen i j visited = if seen i j visited then 0 else 1

-- How many of the first positions are not among the second.
unfoldable pub fresh : Positions → Positions → ℕ
fresh [] visited = 0
fresh (p ∷ ps) visited = unseen p.0 p.1 visited + fresh ps visited

unseen_more :
    (a i j b : ℕ) (visited : Positions) → unseen a b ((i, j) ∷ visited) ≤ unseen a b visited
unseen_more a i j b visited = ground arith

fresh_more : (ps visited : Positions) (i j : ℕ) → fresh ps ((i, j) ∷ visited) ≤ fresh ps visited
unfolding fresh
fresh_more [] visited i j = omega arith
fresh_more (p ∷ ps) visited i j =
    omega (arith, unseen_more p.0 i j p.1 visited, fresh_more ps visited i j)

unseen_now : (i j : ℕ) (visited : Positions) → unseen i j ((i, j) ∷ visited) ≡ 0
unseen_now i j visited = rw (==_refl i, ==_refl j) refl

unseen_before : (i j : ℕ) (visited : Positions) → seen i j visited ≡ false → unseen i j visited ≡ 1
unseen_before i j visited e = rw e refl

and_true : (a b : Bool) → a && b ≡ true → (a ≡ true) × (b ≡ true)
and_true true b e = (refl, e)
and_true false b e = absurd (cc e)

seen_at : (i j a b : ℕ) → (i == a) && (j == b) ≡ true → (i ≡ a) × (j ≡ b)
seen_at i j a b e =
    let (p, q) = and_true (i == a) (j == b) e in ((==_iff i a).0 p, (==_iff j b).0 q)

-- A visit of a new position leaves fewer.
pub fresh_less :
    (ps visited : Positions) (i j : ℕ)
    → seen i j ps ≡ true
    → seen i j visited ≡ false
    → fresh ps ((i, j) ∷ visited) < fresh ps visited
unfolding fresh
fresh_less [] visited i j h n = absurd (cc h)
fresh_less (p ∷ ps) visited i j h n = elim (Bool-cases ((i == p.0) && (j == p.1))) [
  | inl e ↦
      let (a, b) = seen_at i j p.0 p.1 e in
      let now : unseen p.0 p.1 ((i, j) ∷ visited) ≡ 0 =
        ap₂ (λ x y. unseen x y ((i, j) ∷ visited)) (sym a) (sym b) ∙ unseen_now i j visited in
      let before : unseen p.0 p.1 visited ≡ 1 =
        ap₂ (λ x y. unseen x y visited) (sym a) (sym b) ∙ unseen_before i j visited n in
      omega (arith, now, before, fresh_more ps visited i j)
  | inr e ↦
      omega (arith, unseen_more p.0 i j p.1 visited, fresh_less ps visited i j (or_right _ _ e h) n)
]
  where
    or_right : (a b : Bool) → a ≡ false → a || b ≡ true → b ≡ true
    or_right true b f e = absurd (cc f)
    or_right false b f e = e

unfoldable row : ℕ → ℕ → Positions
row i zero = (i, 0) ∷ []
row i (suc m) = (i, suc m) ∷ row i m

-- The positions up to a pair.
unfoldable pub grid : ℕ → ℕ → Positions
unfolding row
grid zero m = row 0 m
grid (suc n) m = row (suc n) m ++ grid n m

seen-append : (i j : ℕ) (a b : Positions) → seen i j (a ++ b) ≡ seen i j a || seen i j b
seen-append i j [] b = refl
seen-append i j (p ∷ a) b = ground (arith, seen-append i j a b)

seen-row : (i j m : ℕ) → j ≤ m → seen i j (row i m) ≡ true
unfolding row
seen-row i j zero h = ground arith
seen-row i j (suc m) h = ground (arith, seen-row i j m)

pub seen-grid : (i j n m : ℕ) → i ≤ n → j ≤ m → seen i j (grid n m) ≡ true
unfolding grid
seen-grid i j zero m h k = ground (arith, seen-row 0 j m k)
seen-grid i j (suc n) m h k =
    seen-append i j (row (suc n) m) (grid n m) ∙ elim (Bool-cases (i == suc n)) [
      | inl e ↦
          ap (λ x. seen x j (row (suc n) m) || seen i j (grid n m)) ((==_iff i (suc n)).0 e)
          ∙ ap (λ b. b || seen i j (grid n m)) (seen-row (suc n) j m k)
      | inr e ↦
          ap (λ b. seen i j (row (suc n) m) || b) (seen-grid i j n m (below_suc i n e h) k)
          ∙ or_true (seen i j (row (suc n) m))
    ]
  where
    below_suc : (i n : ℕ) → i == suc n ≡ false → i ≤ suc n → i ≤ n
    below_suc i n e h = ground arith

    or_true : (b : Bool) → b || true ≡ true
    or_true true = refl
    or_true false = refl

length-row : (i m : ℕ) → length (row i m) ≡ suc m
unfolding row
length-row i zero = refl
length-row i (suc m) = ap suc (length-row i m)

product_step : (n m : ℕ) → suc m + suc n * suc m ≡ suc (suc n) * suc m
product_step n m = grind arith

length-grid : (n m : ℕ) → length (grid n m) ≡ suc n * suc m
unfolding grid
length-grid zero m = omega (arith, length-row 0 m)
length-grid (suc n) m =
    length-append (row (suc n) m) (grid n m)
    ∙ ap₂ (λ a b. a + b) (length-row (suc n) m) (length-grid n m)
    ∙ product_step n m

fresh_le : (ps : Positions) → fresh ps [] ≤ length ps
unfolding fresh
fresh_le [] = omega arith
fresh_le (p ∷ ps) = omega (arith, fresh_le ps)

pub fresh-grid_le : (n m : ℕ) → fresh (grid n m) [] ≤ suc n * suc m
fresh-grid_le n m = subst (λ k. fresh (grid n m) [] ≤ k) (length-grid n m) (fresh_le (grid n m))
