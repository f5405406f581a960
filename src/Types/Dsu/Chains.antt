-- ===== src/Types/Dsu/Chains.antt =====
-- The way from an Imp of src/types/dsu.h to the root of its set.
use wake.Prelude.{
  ℕ, zero, suc, ◌≤◌, true, false, Bool-cases, inl, inr, Option, none, some, ◌==◌, ==_iff, ==_refl,
  ◌≡◌, refl, sym, ◌∙◌, ap, subst, arith,
}
use wake.Types.Dsu.{update_at}

-- A number of steps to a root.
abbrev pub Chain : (ℕ → Option ℕ) → ℕ → ℕ → ℕ → Type 0
Chain f zero y r = (y ≡ r) × (f y ≡ none)
Chain f (suc n) y r = (q : ℕ) × (f y ≡ some q) × Chain f n q r

pub some_injective : (x y : ℕ) → ◌≡◌ {A = Option ℕ} (some x) (some y) → x ≡ y
some_injective x y e = ap inside e
  where
    inside : Option ℕ → ℕ
    inside none = x
    inside (some z) = z

pub none-some : (p : ℕ) → ◌≡◌ {A = Option ℕ} none (some p) → ⊥
none-some p e = absurd (cc e)

-- Two stores with the same parents have the same chains.
pub Chain-same :
    (f g : ℕ → Option ℕ) (n y r : ℕ) → ((x : ℕ) → f x ≡ g x) → Chain f n y r → Chain g n y r
Chain-same f g zero y r e c = (c.0, sym (e y) ∙ c.1)
Chain-same f g (suc n) y r e c = (c.0, sym (e y) ∙ c.1, Chain-same f g n c.0 r e c.2)

-- A chain ends at one root.
pub Chain-root : (f : ℕ → Option ℕ) (n m y r s : ℕ) → Chain f n y r → Chain f m y s → r ≡ s
Chain-root f zero zero y r s c d = sym c.0 ∙ d.0
Chain-root f zero (suc m) y r s c d = absurd (none-some d.0 (sym c.1 ∙ d.1))
Chain-root f (suc n) zero y r s c d = absurd (none-some c.0 (sym d.1 ∙ c.1))
Chain-root f (suc n) (suc m) y r s c d =
    Chain-root f n m c.0 r s c.2
      (subst (λ q. Chain f m q s) (sym (some_injective c.0 d.0 (sym c.1 ∙ d.1))) d.2)

pub Chain-end : (f : ℕ → Option ℕ) (n y r : ℕ) → Chain f n y r → f r ≡ none
Chain-end f zero y r c = subst (λ x. f x ≡ none) c.0 c.1
Chain-end f (suc n) y r c = Chain-end f n c.0 r c.2

-- No Imp on a chain is its own parent.
pub Chain-loop : (f : ℕ → Option ℕ) (n x r : ℕ) → f x ≡ some x → Chain f n x r → ⊥
Chain-loop f zero x r e c = none-some x (sym c.1 ∙ e)
Chain-loop f (suc n) x r e c =
    Chain-loop f n x r e (subst (λ q. Chain f n q r) (sym (some_injective x c.0 (sym e ∙ c.1))) c.2)

pub update_at_self : (x : ℕ) (v : Option ℕ) (f : ℕ → Option ℕ) → update_at x v f x ≡ v
update_at_self x v f = rw (==_refl x) refl

pub update_at_other :
    (x y : ℕ) (v : Option ℕ) (f : ℕ → Option ℕ) → (y == x) ≡ false → update_at x v f y ≡ f y
update_at_other x y v f e = rw e refl

-- Where x steps over its parent, every chain stays, and none gets longer.
pub Chain-skipped :
    (f : ℕ → Option ℕ) (x p pp n y r : ℕ)
    → f x ≡ some p
    → f p ≡ some pp
    → Chain f n y r
    → (m : ℕ) × (m ≤ n) × Chain (update_at x (some pp) f) m y r
Chain-skipped f x p pp zero y r e h c = elim (Bool-cases (y == x)) [
  | inl b ↦ absurd (none-some p (sym (subst (λ z. f z ≡ none) ((==_iff y x).0 b) c.1) ∙ e))
  | inr b ↦ (0, omega arith, (c.0, update_at_other x y _ f b ∙ c.1))
]
Chain-skipped f x p pp (suc zero) y r e h c = elim (Bool-cases (y == x)) [
  | inl b ↦ absurd (short_of (some_injective c.0 p (sym (at_x b) ∙ e)))
  | inr b ↦
      let i = Chain-skipped f x p pp zero c.0 r e h c.2 in
      (suc i.0, omega arith, (c.0, update_at_other x y _ f b ∙ c.1, i.2))
]
  where
    at_x : (y == x) ≡ true → f x ≡ some c.0
    at_x b = subst (λ z. f z ≡ some c.0) ((==_iff y x).0 b) c.1

    short_of : c.0 ≡ p → ⊥
    short_of q = none-some pp (sym (subst (λ z. f z ≡ none) q c.2.1) ∙ h)
Chain-skipped f x p pp (suc (suc n)) y r e h c = elim (Bool-cases (y == x)) [
  | inl b ↦
      let i = Chain-skipped f x p pp n c.2.0 r e h c.2.2 in
      (
        suc i.0,
        omega arith,
        (pp, here b, subst (λ z. Chain (update_at x (some pp) f) i.0 z r) (over b) i.2),
      )
  | inr b ↦
      let i = Chain-skipped f x p pp (suc n) c.0 r e h c.2 in
      (suc i.0, omega arith, (c.0, update_at_other x y _ f b ∙ c.1, i.2))
]
  where
    here : (y == x) ≡ true → update_at x (some pp) f y ≡ some pp
    here b = rw b refl

    at_x : (y == x) ≡ true → f x ≡ some c.0
    at_x b = subst (λ z. f z ≡ some c.0) ((==_iff y x).0 b) c.1

    over : (y == x) ≡ true → c.2.0 ≡ pp
    over b =
        some_injective c.2.0 pp
          (sym (subst (λ z. f z ≡ some c.2.0) (some_injective c.0 p (sym (at_x b) ∙ e)) c.2.1) ∙ h)
