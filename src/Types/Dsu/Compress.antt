-- ===== src/Types/Dsu/Compress.antt =====
-- DSU::compress and DSU::get of src/types/dsu.h reach the root, and keep the root of every Imp.
use wake.Prelude.{
  ℕ, zero, suc, ◌<◌, ◌≤◌, false, Bool-cases, inl, inr, Option, none, some, Option-cases, ◌==◌,
  ==_iff, ◌≡◌, refl, sym, ◌∙◌, ap, subst, arith,
}
use wake.Types.Dsu.{update_at, Store, set_parent, compress_loop, compress, get}
use wake.Types.Dsu.Chains.{
  Chain, Chain-same, Chain-root, Chain-loop, Chain-skipped, none-some, some_injective,
  update_at_self, update_at_other,
}

-- Every chain of the first parents is one of the second ones, and not longer.
abbrev pub Keeps : (ℕ → Option ℕ) → (ℕ → Option ℕ) → Type 0
Keeps f g = (n y r : ℕ) → Chain f n y r → (m : ℕ) × (m ≤ n) × Chain g m y r

Keeps-refl : (f : ℕ → Option ℕ) → Keeps f f
Keeps-refl f n y r c = (n, omega arith, c)

Keeps-same : (f g : ℕ → Option ℕ) → ((x : ℕ) → f x ≡ g x) → Keeps f g
Keeps-same f g e n y r c = (n, omega arith, Chain-same f g n y r e c)

pub Keeps-trans : (f g h : ℕ → Option ℕ) → Keeps f g → Keeps g h → Keeps f h
Keeps-trans f g h a b n y r c =
    let i = a n y r c in let j = b i.0 y r i.2 in (j.0, omega arith, j.2)

-- What a compression leaves: the root, the chains and the payloads.
abbrev pub Compressed : (T : Type 0) → (ℕ → Option ℕ) → (ℕ → Option T) → ℕ → Store T × ℕ → Type 0
Compressed T f payload r c = (c.1 ≡ r) × Keeps f c.0.parent × ((y : ℕ) → c.0.payload y ≡ payload y)

-- The Imp ahead is not the one behind.
apart : (f : ℕ → Option ℕ) (x p n r : ℕ) → Chain (update_at x (some p) f) n p r → (p == x) ≡ false
apart f x p n r c = elim (Bool-cases (p == x)) [
  | inl b ↦ absurd (looped ((==_iff p x).0 b))
  | inr b ↦ b
]
  where
    looped : p ≡ x → ⊥
    looped e =
        Chain-loop (update_at x (some p) f) n x r (update_at_self x (some p) f ∙ ap some e)
          (subst (λ q. Chain (update_at x (some p) f) n q r) e c)

-- The store behind a round of the loop, its missing parent put in.
round_parents :
    (f : ℕ → Option ℕ) (x p pp y : ℕ)
    → f p ≡ some pp
    → update_at x (some pp) (update_at x (some p) f) y
      ≡ update_at p (some pp) (update_at x (some pp) (update_at p none f)) y
round_parents f x p pp y e = elim (Bool-cases (y == x)) [
  | inl a ↦ elim (Bool-cases (y == p)) [ inl b ↦ rw (a, b) refl | inr b ↦ rw (a, b) refl ]
  | inr a ↦ elim (Bool-cases (y == p)) [
    | inl b ↦ rw (a, b) (ap f ((==_iff y p).0 b) ∙ e)
    | inr b ↦ rw (a, b) refl
  ]
]

put_back :
    (f : ℕ → Option ℕ) (x p y : ℕ)
    → f x ≡ some p
    → f y ≡ update_at x (some p) (update_at x none f) y
put_back f x p y e = elim (Bool-cases (y == x)) [
  | inl a ↦ rw a (ap f ((==_iff y x).0 a) ∙ e)
  | inr a ↦ rw a refl
]

module _ (T : Type 0) where
  loop_end :
      (fuel x p : ℕ) (s : Store T)
      → s.parent p ≡ none
      → compress_loop T (suc fuel) x p s ≡ (set_parent T x (some p) s, p)
  unfolding compress_loop
  loop_end fuel x p s e = rw (compress_loop, e) refl

  loop_step :
      (fuel x p pp : ℕ) (s : Store T)
      → s.parent p ≡ some pp
      → compress_loop T (suc fuel) x p s
        ≡ compress_loop T fuel p pp (set_parent T x (some pp) (set_parent T p none s))
  unfolding compress_loop
  loop_step fuel x p pp s e = rw (compress_loop, e) refl

  -- The rest of a chain behind its first step.
  Chain-behind :
      (f : ℕ → Option ℕ) (n y q r : ℕ)
      → f y ≡ some q
      → Chain f n y r
      → (k : ℕ) × (n ≡ suc k) × Chain f k q r
  Chain-behind f zero y q r e c = absurd (none-some q (sym c.1 ∙ e))
  Chain-behind f (suc n) y q r e c =
      (n, refl, subst (λ z. Chain f n z r) (some_injective c.0 q (sym c.1 ∙ e)) c.2)

  compress_loop-Compressed :
      (fuel x p n r : ℕ) (s : Store T)
      → n < fuel
      → Chain (update_at x (some p) s.parent) n p r
      → Compressed T (update_at x (some p) s.parent) s.payload r (compress_loop T fuel x p s)
  compress_loop-Compressed zero x p n r s l c = absurd (no_fuel l)
    where
      no_fuel : n < 0 → ⊥
      no_fuel h = omega arith
  compress_loop-Compressed (suc fuel) x p n r s l c = elim (Option-cases (s.parent p)) [
    | inl e ↦
        subst (Compressed T star s.payload r) (sym (loop_end fuel x p s e))
          (Chain-root star 0 n p p r (refl, at_p ∙ e) c, Keeps-refl star, λ y. refl)
    | inr e ↦
        let pp : ℕ = e.0 in
        let s1 : Store T = set_parent T x (some pp) (set_parent T p none s) in
        let more = Chain-behind star n p pp r (at_p ∙ e.1) c in
        let skip : Keeps star (update_at p (some pp) s1.parent) =
          Keeps-trans star (update_at x (some pp) star) (update_at p (some pp) s1.parent)
            (λ k y t d.
              Chain-skipped star x p pp k y t (update_at_self x (some p) s.parent) (at_p ∙ e.1) d)
            (Keeps-same _ _ (λ y. round_parents s.parent x p pp y e.1)) in
        let ahead = skip more.0 pp r more.2 in
        let done = compress_loop-Compressed fuel p pp ahead.0 r s1 (omega arith) ahead.2 in
        subst (Compressed T star s.payload r) (sym (loop_step fuel x p pp s e.1))
          (done.0, Keeps-trans star _ _ skip done.1, done.2)
  ]
    where
      star : ℕ → Option ℕ
      star = update_at x (some p) s.parent

      at_p : star p ≡ s.parent p
      at_p = update_at_other x p (some p) s.parent (apart s.parent x p n r c)

  compress_root :
      (fuel imp : ℕ) (s : Store T) → s.parent imp ≡ none → compress T fuel imp s ≡ (s, imp)
  unfolding compress
  compress_root fuel imp s e = rw (compress, e) refl

  compress_step :
      (fuel imp p : ℕ) (s : Store T)
      → s.parent imp ≡ some p
      → compress T fuel imp s ≡ compress_loop T fuel imp p (set_parent T imp none s)
  unfolding compress
  compress_step fuel imp p s e = rw (compress, e) refl

  -- With as many rounds as the way to the root has steps, the object names the root; every Imp keeps
  -- its root, on a way that is not longer, and its payload.
  pub compress-Compressed :
      (fuel imp n r : ℕ) (s : Store T)
      → n ≤ fuel
      → Chain s.parent n imp r
      → Compressed T s.parent s.payload r (compress T fuel imp s)
  compress-Compressed fuel imp n r s l c = elim (Option-cases (s.parent imp)) [
    | inl e ↦
        subst (Compressed T s.parent s.payload r) (sym (compress_root fuel imp s e))
          (Chain-root s.parent 0 n imp imp r (refl, e) c, Keeps-refl s.parent, λ y. refl)
    | inr e ↦
        let more = Chain-behind s.parent n imp e.0 r e.1 c in
        let back = Keeps-same s.parent _ (λ y. put_back s.parent imp e.0 y e.1) in
        let ahead = back more.0 e.0 r more.2 in
        let done =
          compress_loop-Compressed fuel imp e.0 ahead.0 r (set_parent T imp none s) (omega arith)
            ahead.2 in
        subst (Compressed T s.parent s.payload r) (sym (compress_step fuel imp e.0 s e.1))
          (done.0, Keeps-trans s.parent _ _ back done.1, done.2)
  ]

  -- The payload that `get` returns is the one at the root, and every Imp keeps its root and payload.
  pub get-root :
      (fuel imp n r : ℕ) (s : Store T)
      → n ≤ fuel
      → Chain s.parent n imp r
      → ((get T fuel imp s).1 ≡ s.payload r)
        × Keeps s.parent (get T fuel imp s).0.parent
        × ((y : ℕ) → (get T fuel imp s).0.payload y ≡ s.payload y)
  unfolding get
  get-root fuel imp n r s l c =
      let d = compress-Compressed fuel imp n r s l c in (d.2 _ ∙ ap s.payload d.0, d.1, d.2)
