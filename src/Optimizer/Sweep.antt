-- ===== src/Optimizer/Sweep.antt =====
-- Term::pass_sweep of src/optimizer/sweep.cpp: it drops the terms that are not used and renumbers the
-- arguments of the others.
pub mod Renumber
pub mod Streams
pub mod Renames
pub mod Scoping
use wake.Prelude.{ℕ, zero, List, [], ◌∷◌, ◌++◌, Bool, true, false, length, set}
use wake.Optimizer.{
  Info, Redux, Term, Terms, arg, lit, redux, fun, no_terms, term, is_used, terms_of, SourceMap,
  TermStream, lookup, transfer, discard, begin_stream, unwind, unwound, update,
}

-- The term at a position of the target, changed in place.
abbrev pub replace_term : ℕ → Term → TermStream → TermStream
replace_term at t s = record s { target = set s.target at t }

-- A round of the loop: a used term was transferred and swept, another one is discarded.
abbrev pub round : Bool → Term × TermStream → TermStream → TermStream
round true swept s = replace_term (length s.target) swept.0 swept.1
round false swept s = discard s

unfoldable mutual
  unfolding lookup

  pub sweep : Term → TermStream → Term × TermStream
  sweep (arg i) s = (arg i, s)
  sweep (lit i v) s = (lit i v, s)
  sweep (redux i kind args) s = (redux i kind (update s.source args), s)
  sweep (fun i output terms) s =
      let body = sweep_terms terms s in
      (
        fun i (lookup body.source output) (terms_of (unwound (begin_stream s) body)),
        unwind (begin_stream s) body,
      )

  pub sweep_terms : Terms → TermStream → TermStream
  sweep_terms no_terms s = s
  sweep_terms (term t ts) s = sweep_terms ts (round (is_used t) (sweep t (transfer t s)) s)

-- Term::pass_sweep
unfoldable pub pass_sweep : Term → Term
unfolding sweep
pass_sweep t =
    (sweep t (transfer t (record { target = []; source = record { start = 0; entries = [] } }))).0
