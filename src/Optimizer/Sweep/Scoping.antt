-- ===== src/Optimizer/Sweep/Scoping.antt =====
-- The terms that usage and sweep of src/optimizer leave are well scoped.
use wake.Prelude.{
  ℕ, zero, suc, ◌<◌, List, [], ◌∷◌, ◌++◌, length, take, get_elem?, map, Bool, true, false,
  Bool-cases, inl, inr, some, All, ◌≡◌, refl, sym, ap, subst, arith,
}
use wake.Optimizer.{
  Term, Terms, arg, lit, redux, fun, no_terms, term, terms_of, terms_length, is_used,
}
use wake.Optimizer.Usage.{pass_usage}
use wake.Optimizer.Usage.Closed.{length_snoc, pass_usage-IsClosed, pass_usage-IsScoped}
use wake.Optimizer.Sweep.{pass_sweep}
use wake.Optimizer.Sweep.Renumber.{trues, trues-append, rank, rank_of, renumber, renumber_terms}
use wake.Optimizer.Sweep.Renames.{pass_sweep-renumber}
use wake.Optimizer.Scoped.{uses_of, IsScoped, AreScoped, IsClosed, AreClosed}

-- Fewer terms are used before a used term of a list than in the list.
trues-take :
    (env : List Bool) (x : ℕ) → get_elem? env x ≡ some true → trues (take x env) < trues env
trues-take [] x e = absurd (cc e)
trues-take (true ∷ env) zero e = omega arith
trues-take (false ∷ env) zero e = absurd (cc e)
trues-take (true ∷ env) (suc x) e = let i = trues-take env x e in omega arith
trues-take (false ∷ env) (suc x) e = trues-take env x e

rank_used : (env : List Bool) (x : ℕ) → get_elem? env x ≡ some true → rank env x < trues env
rank_used env x e =
    subst (λ o. rank_of o (trues (take x env)) < trues env) (sym e) (trues-take env x e)

-- A used term before the last one keeps a rank below it.
rank_below :
    (env : List Bool) (x : ℕ)
    → x < length env
    → get_elem? (env ++ true ∷ []) x ≡ some true
    → rank (env ++ true ∷ []) x < trues env
rank_below env x l e =
    subst (λ o. rank_of o (trues (take x (env ++ true ∷ []))) < trues env) (sym e)
      (before env x l e)
  where
    before :
        (env : List Bool) (x : ℕ)
        → x < length env
        → get_elem? (env ++ true ∷ []) x ≡ some true
        → trues (take x (env ++ true ∷ [])) < trues env
    before [] x l e = absurd (below_zero x l)
      where
        below_zero : (x : ℕ) → x < 0 → ⊥
        below_zero x l = omega arith
    before (true ∷ env) zero l e = omega arith
    before (false ∷ env) zero l e = absurd (cc e)
    before (true ∷ env) (suc x) l e = let i = before env x (omega arith) e in omega arith
    before (false ∷ env) (suc x) l e = before env x (omega arith) e

args_below :
    (args : List ℕ) (env : List Bool)
    → All (λ x. x < length env) args
    → All (λ x. get_elem? (env ++ true ∷ []) x ≡ some true) args
    → All (λ x. x < trues env) (map (rank (env ++ true ∷ [])) args)
args_below [] env h c = tt
args_below (x ∷ args) env h c = (rank_below env x h.0 c.0, args_below args env h.1 c.1)

length-renumber_terms :
    (ts : Terms) (env : List Bool)
    → terms_length (terms_of (renumber_terms env ts)) ≡ trues (uses_of ts)
length-renumber_terms no_terms env = refl
length-renumber_terms (term t ts) env = elim (Bool-cases (is_used t)) [
  | inl u ↦ rw u (ap suc (length-renumber_terms ts (env ++ true ∷ [])))
  | inr u ↦ rw u (length-renumber_terms ts (env ++ false ∷ []))
]

trues-true : (env : List Bool) → trues (env ++ true ∷ []) ≡ suc (trues env)
trues-true env = let e = trues-append env (true ∷ []) in omega arith

trues-false : (env : List Bool) → trues (env ++ false ∷ []) ≡ trues env
trues-false env = let e = trues-append env (false ∷ []) in omega arith

mutual
  renumber-IsScoped :
      (t : Term) (env : List Bool) (n : ℕ)
      → length env ≡ n
      → IsScoped n t
      → IsClosed (env ++ true ∷ []) t
      → IsScoped (trues env) (renumber (env ++ true ∷ []) t)
  renumber-IsScoped (arg i) env n e h c = tt
  renumber-IsScoped (lit i v) env n e h c = tt
  renumber-IsScoped (redux i kind args) env n e h c =
      args_below args env (subst (λ k. All (λ x. x < k) args) (sym e) h) c
  renumber-IsScoped (fun i output terms) env n e h c = (
    (let a = rank_used ((env ++ true ∷ []) ++ uses_of terms) output c.0 in
        let b = trues-append (env ++ true ∷ []) (uses_of terms) in
        let d = trues-true env in
        let l = length-renumber_terms terms (env ++ true ∷ []) in omega arith),
    subst (λ k. AreScoped k (terms_of (renumber_terms (env ++ true ∷ []) terms))) (trues-true env)
        (renumber_terms-AreScoped terms (env ++ true ∷ []) (suc n) (length_snoc env true n e) h.1
          c.1),
  )

  renumber_terms-AreScoped :
      (ts : Terms) (env : List Bool) (n : ℕ)
      → length env ≡ n
      → AreScoped n ts
      → AreClosed env ts
      → AreScoped (trues env) (terms_of (renumber_terms env ts))
  renumber_terms-AreScoped no_terms env n e h c = tt
  renumber_terms-AreScoped (term t ts) env n e h c = elim (Bool-cases (is_used t)) [
    | inl u ↦ rw u (
      renumber-IsScoped t env n e h.0 (subst (λ k. IsClosed (env ++ k ∷ []) t) u (c.0 u)),
      subst (λ k. AreScoped k (terms_of (renumber_terms (env ++ true ∷ []) ts))) (trues-true env)
          (renumber_terms-AreScoped ts (env ++ true ∷ []) (suc n) (length_snoc env true n e) h.1
            (subst (λ k. AreClosed (env ++ k ∷ []) ts) u c.1)),
    )
    | inr u ↦ rw u (
        subst (λ k. AreScoped k (terms_of (renumber_terms (env ++ false ∷ []) ts)))
          (trues-false env)
          (renumber_terms-AreScoped ts (env ++ false ∷ []) (suc n) (length_snoc env false n e) h.1
            (subst (λ k. AreClosed (env ++ k ∷ []) ts) u c.1)))
  ]

-- Usage and sweep together take a well-scoped term to a well-scoped term: no argument that is left
-- names a term that was dropped, and every argument names an earlier term.
pub pass_sweep-pass_usage : (t : Term) → IsScoped 0 t → IsScoped 0 (pass_sweep (pass_usage t))
pass_sweep-pass_usage t h = subst (IsScoped 0) (sym (pass_sweep-renumber (pass_usage t))) (
    renumber-IsScoped (pass_usage t) [] 0 refl (pass_usage-IsScoped t 0 h)
      (pass_usage-IsClosed t h))
