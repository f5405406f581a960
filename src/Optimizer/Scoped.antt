-- ===== src/Optimizer/Scoped.antt =====
-- What the passes of src/optimizer expect of terms: arguments name earlier terms, that are in use.
use wake.Prelude.{ℕ, suc, ◌+◌, ◌<◌, List, [], ◌∷◌, ◌++◌, Bool, true, some, All, get_elem?, ◌≡◌}
use wake.Optimizer.{Term, Terms, arg, lit, redux, fun, no_terms, term, is_used, terms_length}

-- Whether the terms are used.
abbrev pub uses_of : Terms → List Bool
uses_of no_terms = []
uses_of (term t ts) = is_used t ∷ uses_of ts

-- The arguments of a term at a position name terms before it; a function may name itself inside, and
-- its output is one of its terms or an earlier one.
abbrev mutual
  pub IsScoped : ℕ → Term → Type 0
  IsScoped n (arg i) = Unit
  IsScoped n (lit i v) = Unit
  IsScoped n (redux i kind args) = All (λ x. x < n) args
  IsScoped n (fun i output terms) = (output < suc n + terms_length terms) × AreScoped (suc n) terms

  pub AreScoped : ℕ → Terms → Type 0
  AreScoped n no_terms = Unit
  AreScoped n (term t ts) = IsScoped n t × AreScoped (suc n) ts

-- What a used term names is used, where a list tells of each term up to it whether it is.
abbrev mutual
  pub IsClosed : List Bool → Term → Type 0
  IsClosed env (arg i) = Unit
  IsClosed env (lit i v) = Unit
  IsClosed env (redux i kind args) = All (λ x. get_elem? env x ≡ some true) args
  IsClosed env (fun i output terms) =
      (get_elem? (env ++ uses_of terms) output ≡ some true) × AreClosed env terms

  pub AreClosed : List Bool → Terms → Type 0
  AreClosed env no_terms = Unit
  AreClosed env (term t ts) =
      (is_used t ≡ true → IsClosed (env ++ is_used t ∷ []) t) × AreClosed (env ++ is_used t ∷ []) ts
