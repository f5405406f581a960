-- ===== src/Optimizer/Usage.antt =====
-- Term::pass_usage of src/optimizer/usage.cpp: it counts the uses of each term from the last one back,
-- and marks the terms that are used. The scope holds the counters of the terms, outermost first.
pub mod Counts
pub mod Marks
pub mod Closed
use wake.Prelude.{
  ℕ, zero, suc, List, [], ◌∷◌, ◌++◌, Bool, true, false, ◌||◌, length, replicate, ltb, ◌==◌,
}
use wake.Optimizer.{
  Flags, Info, Redux, Term, Terms, arg, lit, redux, fun, no_terms, term, info, with_info,
  terms_length, has_effect,
}

-- ++p.scope[x]->meta
abbrev pub count_use : ℕ → List ℕ → List ℕ
count_use x [] = []
count_use zero (n ∷ scope) = suc n ∷ scope
count_use (suc x) (n ∷ scope) = n ∷ count_use x scope

-- redux_usage
abbrev pub count_all : List ℕ → List ℕ → List ℕ
count_all [] scope = scope
count_all (x ∷ args) scope = count_all args (count_use x scope)

abbrev pub last_count : List ℕ → ℕ
last_count [] = 0
last_count (n ∷ []) = n
last_count (n ∷ m ∷ scope) = last_count (m ∷ scope)

abbrev pub pop_scope : List ℕ → List ℕ
pop_scope [] = []
pop_scope (n ∷ []) = []
pop_scope (n ∷ m ∷ scope) = n ∷ pop_scope (m ∷ scope)

-- A term is used if it was counted, or if it has an effect.
abbrev pub marked : ℕ → Term → Term
marked uses t = with_info t (record (info t) {
  flags = record (info t).flags { used = ltb 0 uses || has_effect t; singleton = uses == 1 };
  meta = uses;
})

abbrev pub set_meta : ℕ → Term → Term
set_meta uses t = with_info t (record (info t) { meta = uses })

-- t->meta > 0 || t->get(SSA_EFFECT)
abbrev pub used_by : Term → List ℕ → Bool
used_by t scope = ltb 0 (last_count scope) || has_effect t

-- The rest of a round of the loop, whose term is passed over again if it is used.
abbrev pub finish_term : Bool → Term → Term × List ℕ → List ℕ → Term × List ℕ
finish_term true t inside scope =
    (set_meta (last_count inside.1) (marked (last_count scope) inside.0), pop_scope inside.1)
finish_term false t inside scope = (marked (last_count scope) t, pop_scope scope)

unfoldable mutual
  pub usage : Term → List ℕ → Term × List ℕ
  usage (arg i) scope = (arg i, scope)
  usage (lit i v) scope = (lit i v, scope)
  usage (redux i kind args) scope = (redux i kind args, count_all args scope)
  usage (fun i output terms) scope =
      let body = usage_terms terms (count_use output (scope ++ replicate (terms_length terms) 0)) in
      (fun i output body.0, body.1)

  -- The loop of RFun::pass_usage, which starts at the last term.
  pub usage_terms : Terms → List ℕ → Terms × List ℕ
  usage_terms no_terms scope = (no_terms, scope)
  usage_terms (term t ts) scope =
      let rest = usage_terms ts scope in
      let done = finish_term (used_by t rest.1) t (usage t rest.1) rest.1 in
      (term done.0 rest.0, done.1)

-- Term::pass_usage, which leaves the term in use.
unfoldable pub pass_usage : Term → Term
unfolding usage
pass_usage t =
    let inside = usage t ((info t).meta ∷ []) in
    with_info inside.0 (record (info t) {
      flags = record (info t).flags { used = true; singleton = true };
      meta = last_count inside.1;
    })
