-- ===== src/Optimizer/Usage/Closed.antt =====
-- Term::pass_usage of src/optimizer/usage.cpp marks what used terms name.
use wake.Prelude.{
  ℕ, zero, suc, ◌+◌, ◌<◌, List, [], ◌∷◌, ◌++◌, append-nil, append_assoc, length, length-append,
  replicate, get_elem?, Bool, true, false, Bool-cases, inl, inr, ◌⊎◌, ◌||◌, some, ltb, ltb→lt, ◌≡◌,
  refl, sym, ◌∙◌, ap, subst, arith, All,
}
use wake.Optimizer.{
  Term, Terms, arg, lit, redux, fun, no_terms, term, info, terms_length, has_effect,
}
use wake.Optimizer.Usage.{
  count_use, count_all, last_count, pop_scope, used_by, finish_term, usage, usage_terms, pass_usage,
}
use wake.Optimizer.Usage.Counts.{
  uses_at, length-count_use, uses_at-count_use_self, uses_at-count_all, uses_at-pop_scope,
  uses_at-last, uses_at_inside,
}
use wake.Optimizer.Usage.Marks.{
  IsClosed-with_info, IsScoped-with_info, is_used-finish_term, length-usage, length-usage_terms,
  length-body, uses_at-usage, IsScoped-usage,
}
use wake.Optimizer.Scoped.{uses_of, IsScoped, AreScoped, IsClosed, AreClosed}

-- Every term that was counted is in use.
abbrev Covers : List Bool → List ℕ → Type 0
Covers env scope = (x : ℕ) → 0 < uses_at scope x → get_elem? env x ≡ some true

pub get_elem?_front :
    (env more : List Bool) (x : ℕ) → x < length env → get_elem? (env ++ more) x ≡ get_elem? env x
get_elem?_front [] more x h = absurd (below_zero x h)
  where
    below_zero : (x : ℕ) → x < 0 → ⊥
    below_zero x h = omega arith
get_elem?_front (u ∷ env) more zero h = refl
get_elem?_front (u ∷ env) more (suc x) h = get_elem?_front env more x (omega arith)

pub get_elem?_end : (env : List Bool) (u : Bool) → get_elem? (env ++ u ∷ []) (length env) ≡ some u
get_elem?_end [] u = refl
get_elem?_end (v ∷ env) u = get_elem?_end env u

pub below_or : (x n : ℕ) → x < suc n → (x < n) ⊎ (x ≡ n)
below_or x n h = elim (Bool-cases (ltb x n)) [
  | inl b ↦ inl (ltb→lt x n b)
  | inr b ↦ inr (ground arith)
]

-- A counter in a list that a pop leaves, or the one that it takes.
module _ (env : List Bool) (scope : List ℕ) (n : ℕ) (e : length scope ≡ suc n)
    (f : length env ≡ n) where
  below_last :
      (u : Bool) (x : ℕ)
      → x < n
      → Covers env (pop_scope scope)
      → 0 < uses_at scope x
      → get_elem? (env ++ u ∷ []) x ≡ some true
  below_last u x l c h =
      let k = uses_at-pop_scope scope n x e l in
      get_elem?_front env (u ∷ []) x (omega arith) ∙ c x (omega arith)

  Covers-used : Covers env (pop_scope scope) → Covers (env ++ true ∷ []) scope
  Covers-used c x h = elim (below_or x n (subst (λ k. x < k) e (uses_at_inside scope x h))) [
    | inl l ↦ below_last true x l c h
    | inr l ↦ ap (get_elem? (env ++ true ∷ [])) (l ∙ sym f) ∙ get_elem?_end env true
  ]

  Covers-unused :
      last_count scope ≡ 0 → Covers env (pop_scope scope) → Covers (env ++ false ∷ []) scope
  Covers-unused z c x h = elim (below_or x n (subst (λ k. x < k) e (uses_at_inside scope x h))) [
    | inl l ↦ below_last false x l c h
    | inr l ↦ absurd (unused l h)
  ]
    where
      unused : x ≡ n → 0 < uses_at scope x → ⊥
      unused l h = let k = uses_at-last scope n e in let m = ap (uses_at scope) l in omega arith

-- The arguments that were counted.
counted :
    (args : List ℕ) (n : ℕ) (env : List Bool) (scope : List ℕ)
    → length scope ≡ suc n
    → All (λ x. x < n) args
    → Covers env (count_all args scope)
    → All (λ x. get_elem? env x ≡ some true) args
counted [] n env scope e h c = tt
counted (x ∷ args) n env scope e h c = (
  c x (
      let a = uses_at-count_use_self x scope (omega arith) in
      let b = uses_at-count_all args x (count_use x scope) in omega arith),
  counted args n env (count_use x scope) (length-count_use x scope ∙ e) h.1 c,
)

not_counted : (t : Term) (scope : List ℕ) → used_by t scope ≡ false → last_count scope ≡ 0
not_counted t scope e = elim (Bool-cases (ltb 0 (last_count scope))) [
  | inl b ↦ absurd (true_or (has_effect t) (sym (ap (λ k. k || has_effect t) b) ∙ e))
  | inr b ↦ ground arith
]
  where
    true_or : (b : Bool) → (true || b) ≡ false → ⊥
    true_or b p = absurd (cc p)

-- A round of the loop: the term is closed if it is used, and its counters are covered.
round-IsClosed :
    (b : Bool) (t : Term) (scope : List ℕ) (n : ℕ) (env : List Bool)
    → used_by t scope ≡ b
    → length scope ≡ suc n
    → length env ≡ n
    → Covers env (finish_term b t (usage t scope) scope).1
    → (Covers (env ++ true ∷ []) (usage t scope).1 → IsClosed (env ++ true ∷ []) (usage t scope).0)
    → (b ≡ true → IsClosed (env ++ b ∷ []) (finish_term b t (usage t scope) scope).0)
      × Covers (env ++ b ∷ []) scope
round-IsClosed true t scope n env u e f c i =
    let covered = Covers-used env (usage t scope).1 n (length-usage t scope ∙ e) f c in
    (
      λ b. IsClosed-with_info _ _ _ (IsClosed-with_info _ (usage t scope).0 _ (i covered)),
      λ x h. let m = uses_at-usage t scope x (uses_at_inside scope x h) in covered x (omega arith),
    )
round-IsClosed false t scope n env u e f c i =
    (λ b. absurd (cc b), Covers-unused env scope n e f (not_counted t scope u) c)

pub length_snoc :
    (env : List Bool) (u : Bool) (n : ℕ) → length env ≡ n → length (env ++ u ∷ []) ≡ suc n
length_snoc env u n e = length-append env (u ∷ []) ∙ omega arith

mutual
  unfolding usage

  IsClosed-usage :
      (t : Term) (scope : List ℕ) (n : ℕ) (env : List Bool)
      → length scope ≡ suc n
      → length env ≡ suc n
      → IsScoped n t
      → Covers env (usage t scope).1
      → IsClosed env (usage t scope).0
  IsClosed-usage (arg i) scope n env e f h c = tt
  IsClosed-usage (lit i v) scope n env e f h c = tt
  IsClosed-usage (redux i kind args) scope n env e f h c = counted args n env scope e h c
  IsClosed-usage (fun i output terms) scope n env e f h c =
      let start : List ℕ = count_use output (scope ++ replicate (terms_length terms) 0) in
      let l : length start ≡ length scope + terms_length terms = length-body scope output terms in
      let body = AreClosed-usage_terms terms start (suc n) env (omega arith) f h.1 c in
      (
        body.1 output (
            uses_at-count_use_self output (scope ++ replicate (terms_length terms) 0) (
              let k = length-count_use output (scope ++ replicate (terms_length terms) 0) in
              let m = h.0 in omega arith)),
        body.0,
      )

  AreClosed-usage_terms :
      (ts : Terms) (scope : List ℕ) (n : ℕ) (env : List Bool)
      → length scope ≡ n + terms_length ts
      → length env ≡ n
      → AreScoped n ts
      → Covers env (usage_terms ts scope).1
      → AreClosed env (usage_terms ts scope).0
        × Covers (env ++ uses_of (usage_terms ts scope).0) scope
  AreClosed-usage_terms no_terms scope n env e f h c =
      (tt, λ x k. ap (λ l. get_elem? l x) (append-nil env) ∙ c x k)
  AreClosed-usage_terms (term t ts) scope n env e f h c =
      let rest : List ℕ = (usage_terms ts scope).1 in
      let b : Bool = used_by t rest in
      let r : length rest ≡ suc n = length-usage_terms ts scope (suc n) (omega arith) in
      let one =
        round-IsClosed b t rest n env refl r f c
          (λ k. IsClosed-usage t rest n (env ++ true ∷ []) r (length_snoc env true n f) h.0 k) in
      let more =
        AreClosed-usage_terms ts scope (suc n) (env ++ b ∷ []) (omega arith) (length_snoc env b n f)
          h.1 one.1 in
      let others : Terms = (usage_terms ts scope).0 in
      let done : Term = (finish_term b t (usage t rest) rest).0 in
      subst
        (λ k.
          ((k ≡ true → IsClosed (env ++ k ∷ []) done) × AreClosed (env ++ k ∷ []) others)
          × Covers (env ++ k ∷ uses_of others) scope)
        (sym (is_used-finish_term b t rest refl))
        (
          (one.0, more.0),
          subst (λ l. Covers l scope) (append_assoc env (b ∷ []) (uses_of others)) more.1,
        )

-- Where every argument of a term names an earlier term, and a function's output one of its own terms
-- or an earlier one (`IsScoped`), the pass marks as used every term that a used term names, at each
-- depth.
pub pass_usage-IsClosed : (t : Term) → IsScoped 0 t → IsClosed (true ∷ []) (pass_usage t)
unfolding pass_usage
pass_usage-IsClosed t h = IsClosed-with_info (true ∷ []) (usage t ((info t).meta ∷ [])).0 _ (
    IsClosed-usage t ((info t).meta ∷ []) 0 (true ∷ []) refl refl h (λ x k.
      only x (subst (λ n. x < n) (length-usage t ((info t).meta ∷ [])) (uses_at_inside _ x k))))
  where
    only : (x : ℕ) → x < 1 → get_elem? (true ∷ []) x ≡ some true
    only zero l = refl
    only (suc x) l = absurd (below_one x l)
      where
        below_one : (x : ℕ) → suc x < 1 → ⊥
        below_one x l = omega arith

pub pass_usage-IsScoped : (t : Term) (n : ℕ) → IsScoped n t → IsScoped n (pass_usage t)
unfolding pass_usage
pass_usage-IsScoped t n h =
    IsScoped-with_info n (usage t ((info t).meta ∷ [])).0 _ (IsScoped-usage n t _ h)
