-- ===== src/Optimizer/Tests.antt =====
-- A function whose body makes another one; two of its terms are not needed.
use wake.Prelude.{ℕ, [], ◌∷◌, true, false, codes, ◌≡◌, refl, arith}
use wake.Optimizer.{Info, app, get, prim, Term, arg, lit, redux, fun, no_terms, term}
use wake.Optimizer.Scoped.{IsScoped, IsClosed}
use wake.Optimizer.Usage.{pass_usage}
use wake.Optimizer.Usage.Closed.{pass_usage-IsClosed}
use wake.Optimizer.Sweep.{pass_sweep}
use wake.Optimizer.Sweep.Scoping.{pass_sweep-pass_usage}

abbrev plain : Info
plain = record {
  label = codes "x";
  flags = record {
    recursive = false;
    ordered = false;
    effect = false;
    used = false;
    singleton = false;
    frcon = false;
    moved = false;
  };
  meta = 7;
}

abbrev printing : Info
printing = record {
  label = codes "print";
  flags = record {
    recursive = false;
    ordered = false;
    effect = true;
    used = false;
    singleton = false;
    frcon = false;
    moved = false;
  };
  meta = 0;
}

-- Terms 1 to 9: an argument, a literal, a value that nothing uses, another literal, a print of it, a
-- function over 7 and 8 that applies the argument, and a pair that is not needed.
abbrev top : Term
top = fun plain 6 (
    term (arg plain) (
      term (lit plain 30) (
        term (redux plain (get 0) (1 ∷ [])) (
          term (lit plain 40) (
            term (redux printing (prim (codes "print") 0) (4 ∷ [])) (
              term (fun plain 8 (term (arg plain) (term (redux plain app (1 ∷ 7 ∷ [])) no_terms)))
                no_terms))))))

abbrev IsOutput : Term → ℕ → Type 0
IsOutput (fun i output terms) n = output ≡ n
IsOutput t n = ⊥

-- The literal 30 and the unused value are dropped, so that the output moves from 6 to 4.
swept_runs : IsOutput (pass_sweep (pass_usage top)) 4
unfolding pass_sweep pass_usage
swept_runs = refl

top-IsScoped : IsScoped 0 top
top-IsScoped = (
  omega arith,
  (
    tt,
    (
      tt,
      (
        (omega arith, tt),
        (
          tt,
          ((omega arith, tt), ((omega arith, (tt, ((omega arith, (omega arith, tt)), tt))), tt)),
        ),
      ),
    ),
  ),
)

pass_usage-IsClosed_example : IsClosed (true ∷ []) (pass_usage top)
pass_usage-IsClosed_example = pass_usage-IsClosed top top-IsScoped

pass_sweep-pass_usage_example : IsScoped 0 (pass_sweep (pass_usage top))
pass_sweep-pass_usage_example = pass_sweep-pass_usage top top-IsScoped
