-- ===== src/Optimizer/Usage/Marks.antt =====
-- What Term::pass_usage of src/optimizer/usage.cpp leaves of a term, and what it marks.
use wake.Prelude.{
  ℕ, zero, suc, ◌+◌, ◌<◌, ◌≤◌, List, [], ◌∷◌, ◌++◌, length, length-append, replicate, Bool, true,
  false, ◌||◌, ltb, ◌≡◌, refl, sym, ◌∙◌, ap, subst, arith,
}
use wake.Optimizer.{
  Info, Term, Terms, arg, lit, redux, fun, no_terms, term, info, with_info, terms_length, is_used,
  has_effect,
}
use wake.Optimizer.Usage.{
  count_use, last_count, marked, set_meta, used_by, finish_term, usage, usage_terms,
}
use wake.Optimizer.Usage.Counts.{
  uses_at, length-count_use, length-count_all, length-pop_scope, uses_at-count_use,
  uses_at-count_all, uses_at-pop_scope,
}
use wake.Optimizer.Scoped.{IsScoped, AreScoped, IsClosed}

pub info-with_info : (t : Term) (j : Info) → info (with_info t j) ≡ j
info-with_info (arg i) j = refl
info-with_info (lit i v) j = refl
info-with_info (redux i kind args) j = refl
info-with_info (fun i output terms) j = refl

pub IsScoped-with_info : (n : ℕ) (t : Term) (j : Info) → IsScoped n t → IsScoped n (with_info t j)
IsScoped-with_info n (arg i) j h = h
IsScoped-with_info n (lit i v) j h = h
IsScoped-with_info n (redux i kind args) j h = h
IsScoped-with_info n (fun i output terms) j h = h

pub IsClosed-with_info :
    (env : List Bool) (t : Term) (j : Info) → IsClosed env t → IsClosed env (with_info t j)
IsClosed-with_info env (arg i) j h = h
IsClosed-with_info env (lit i v) j h = h
IsClosed-with_info env (redux i kind args) j h = h
IsClosed-with_info env (fun i output terms) j h = h

pub info-usage : (t : Term) (scope : List ℕ) → info (usage t scope).0 ≡ info t
unfolding usage
info-usage (arg i) scope = refl
info-usage (lit i v) scope = refl
info-usage (redux i kind args) scope = refl
info-usage (fun i output terms) scope = refl

is_used-set_meta : (t : Term) (uses : ℕ) → is_used (set_meta uses t) ≡ is_used t
is_used-set_meta t uses = ap (λ i. i.flags.used) (info-with_info t _)

is_used-marked : (t : Term) (uses : ℕ) → is_used (marked uses t) ≡ (ltb 0 uses || has_effect t)
is_used-marked t uses = ap (λ i. i.flags.used) (info-with_info t _)

-- The term of a round carries its mark.
pub is_used-finish_term :
    (b : Bool) (t : Term) (scope : List ℕ)
    → used_by t scope ≡ b
    → is_used (finish_term b t (usage t scope) scope).0 ≡ b
is_used-finish_term true t scope e =
    is_used-set_meta (marked (last_count scope) (usage t scope).0) (last_count (usage t scope).1)
    ∙ is_used-marked (usage t scope).0 (last_count scope)
    ∙ ap (λ i. ltb 0 (last_count scope) || i.flags.effect) (info-usage t scope)
    ∙ e
is_used-finish_term false t scope e = is_used-marked t (last_count scope) ∙ e

length-replicate : (n : ℕ) → length {A = ℕ} (replicate n 0) ≡ n
length-replicate zero = refl
length-replicate (suc n) = ap suc (length-replicate n)

length-finish_term :
    (b : Bool) (t : Term) (inside : Term × List ℕ) (scope : List ℕ) (n : ℕ)
    → length inside.1 ≡ length scope
    → length scope ≡ suc n
    → length (finish_term b t inside scope).1 ≡ n
length-finish_term true t inside scope n e h = length-pop_scope inside.1 n (e ∙ h)
length-finish_term false t inside scope n e h = length-pop_scope scope n h

-- The scope in which the loop over a function's terms starts.
pub length-body :
    (scope : List ℕ) (output : ℕ) (ts : Terms)
    → length (count_use output (scope ++ replicate (terms_length ts) 0))
      ≡ length scope + terms_length ts
length-body scope output ts =
    length-count_use output (scope ++ replicate (terms_length ts) 0)
    ∙ length-append scope (replicate (terms_length ts) 0)
    ∙ ap (λ n. length scope + n) (length-replicate (terms_length ts))

mutual
  unfolding usage

  pub length-usage : (t : Term) (scope : List ℕ) → length (usage t scope).1 ≡ length scope
  length-usage (arg i) scope = refl
  length-usage (lit i v) scope = refl
  length-usage (redux i kind args) scope = length-count_all args scope
  length-usage (fun i output terms) scope =
      length-usage_terms terms _ (length scope) (length-body scope output terms)

  pub length-usage_terms :
      (ts : Terms) (scope : List ℕ) (n : ℕ)
      → length scope ≡ n + terms_length ts
      → length (usage_terms ts scope).1 ≡ n
  length-usage_terms no_terms scope n e = omega arith
  length-usage_terms (term t ts) scope n e =
      let r : length (usage_terms ts scope).1 ≡ suc n =
        length-usage_terms ts scope (suc n) (omega arith) in
      length-finish_term (used_by t (usage_terms ts scope).1) t _ (usage_terms ts scope).1 n
        (length-usage t (usage_terms ts scope).1) r

pub uses_at-append : (scope more : List ℕ) (y : ℕ) → uses_at scope y ≤ uses_at (scope ++ more) y
uses_at-append [] more y = omega arith
uses_at-append (n ∷ scope) more zero = omega arith
uses_at-append (n ∷ scope) more (suc y) = uses_at-append scope more y

uses_at-finish_term :
    (b : Bool) (t : Term) (inside : Term × List ℕ) (scope : List ℕ) (n y : ℕ)
    → length inside.1 ≡ length scope
    → length scope ≡ suc n
    → y < n
    → uses_at scope y ≤ uses_at inside.1 y
    → uses_at scope y ≤ uses_at (finish_term b t inside scope).1 y
uses_at-finish_term true t inside scope n y e h l m =
    subst (λ k. uses_at scope y ≤ k) (sym (uses_at-pop_scope inside.1 n y (e ∙ h) l)) m
uses_at-finish_term false t inside scope n y e h l m =
    let i = uses_at-pop_scope scope n y h l in omega arith

-- The counters of the terms that stay in the scope only grow.
mutual
  unfolding usage

  pub uses_at-usage :
      (t : Term) (scope : List ℕ) (y : ℕ)
      → y < length scope
      → uses_at scope y ≤ uses_at (usage t scope).1 y
  uses_at-usage (arg i) scope y h = omega arith
  uses_at-usage (lit i v) scope y h = omega arith
  uses_at-usage (redux i kind args) scope y h = uses_at-count_all args y scope
  uses_at-usage (fun i output terms) scope y h =
      let zeros : List ℕ = replicate (terms_length terms) 0 in
      let start : List ℕ = count_use output (scope ++ zeros) in
      let a : uses_at scope y ≤ uses_at (scope ++ zeros) y = uses_at-append scope zeros y in
      let b : uses_at (scope ++ zeros) y ≤ uses_at start y = uses_at-count_use output y _ in
      let c : uses_at start y ≤ uses_at (usage (fun i output terms) scope).1 y =
        uses_at-usage_terms terms start (length scope) y (length-body scope output terms) h in
      omega arith

  pub uses_at-usage_terms :
      (ts : Terms) (scope : List ℕ) (n y : ℕ)
      → length scope ≡ n + terms_length ts
      → y < n
      → uses_at scope y ≤ uses_at (usage_terms ts scope).1 y
  uses_at-usage_terms no_terms scope n y e h = omega arith
  uses_at-usage_terms (term t ts) scope n y e h =
      let rest : List ℕ = (usage_terms ts scope).1 in
      let r : length rest ≡ suc n = length-usage_terms ts scope (suc n) (omega arith) in
      let a : uses_at scope y ≤ uses_at rest y =
        uses_at-usage_terms ts scope (suc n) y (omega arith) (omega arith) in
      let i : uses_at rest y ≤ uses_at (usage t rest).1 y = uses_at-usage t rest y (omega arith) in
      let b =
        uses_at-finish_term (used_by t rest) t (usage t rest) rest n y (length-usage t rest) r h
          i in
      omega arith

pub terms_length-usage_terms :
    (ts : Terms) (scope : List ℕ) → terms_length (usage_terms ts scope).0 ≡ terms_length ts
unfolding usage_terms
terms_length-usage_terms no_terms scope = refl
terms_length-usage_terms (term t ts) scope = ap suc (terms_length-usage_terms ts scope)

IsScoped-finish_term :
    (b : Bool) (n : ℕ) (t : Term) (inside : Term × List ℕ) (scope : List ℕ)
    → IsScoped n t
    → IsScoped n inside.0
    → IsScoped n (finish_term b t inside scope).0
IsScoped-finish_term true n t inside scope h i =
    IsScoped-with_info n _ _ (IsScoped-with_info n inside.0 _ i)
IsScoped-finish_term false n t inside scope h i = IsScoped-with_info n t _ h

mutual
  unfolding usage

  pub IsScoped-usage :
      (n : ℕ) (t : Term) (scope : List ℕ) → IsScoped n t → IsScoped n (usage t scope).0
  IsScoped-usage n (arg i) scope h = h
  IsScoped-usage n (lit i v) scope h = h
  IsScoped-usage n (redux i kind args) scope h = h
  IsScoped-usage n (fun i output terms) scope h = (
    subst (λ k. output < suc n + k) (sym (terms_length-usage_terms terms _)) h.0,
    AreScoped-usage_terms (suc n) terms _ h.1,
  )

  pub AreScoped-usage_terms :
      (n : ℕ) (ts : Terms) (scope : List ℕ) → AreScoped n ts → AreScoped n (usage_terms ts scope).0
  AreScoped-usage_terms n no_terms scope h = h
  AreScoped-usage_terms n (term t ts) scope h = (
    IsScoped-finish_term (used_by t (usage_terms ts scope).1) n t _ (usage_terms ts scope).1 h.0
        (IsScoped-usage n t (usage_terms ts scope).1 h.0),
    AreScoped-usage_terms (suc n) ts scope h.1,
  )
