-- ===== src/Optimizer/Sweep/Renumber.antt =====
-- What Term::pass_sweep of src/optimizer/sweep.cpp amounts to, without streams: the used terms stay in
-- their order, and an argument that names one of them becomes the number of used terms before that one.
use wake.Prelude.{
  ℕ, suc, ◌+◌, List, [], ◌∷◌, ◌++◌, take, get_elem?, Bool, true, false, Option, none, some, ◌≡◌,
  arith, if◌then◌else◌, map,
}
use wake.Optimizer.{Term, Terms, arg, lit, redux, fun, no_terms, term, is_used, terms_of, invalid}
use wake.Optimizer.Scoped.{uses_of}

-- How many terms are used.
abbrev pub trues : List Bool → ℕ
trues [] = 0
trues (true ∷ env) = suc (trues env)
trues (false ∷ env) = trues env

abbrev pub rank_of : Option Bool → ℕ → ℕ
rank_of none n = invalid
rank_of (some false) n = invalid
rank_of (some true) n = n

-- The number of used terms before a term that is used; `invalid` for other terms.
abbrev pub rank : List Bool → ℕ → ℕ
rank env x = rank_of (get_elem? env x) (trues (take x env))

abbrev mutual
  pub renumber : List Bool → Term → Term
  renumber env (arg i) = arg i
  renumber env (lit i v) = lit i v
  renumber env (redux i kind args) = redux i kind (map (rank env) args)
  renumber env (fun i output terms) =
      fun i (rank (env ++ uses_of terms) output) (terms_of (renumber_terms env terms))

  pub renumber_terms : List Bool → Terms → List Term
  renumber_terms env no_terms = []
  renumber_terms env (term t ts) =
      if is_used t
      then renumber (env ++ true ∷ []) t ∷ renumber_terms (env ++ true ∷ []) ts
      else renumber_terms (env ++ false ∷ []) ts

pub trues-append : (env more : List Bool) → trues (env ++ more) ≡ trues env + trues more
trues-append [] more = omega arith
trues-append (true ∷ env) more = let e = trues-append env more in omega arith
trues-append (false ∷ env) more = trues-append env more
