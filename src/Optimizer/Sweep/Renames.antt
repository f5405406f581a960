-- ===== src/Optimizer/Sweep/Renames.antt =====
-- Term::pass_sweep of src/optimizer/sweep.cpp does what its description says.
use wake.Prelude.{
  ◌+◌, List, [], ◌∷◌, ◌++◌, append-nil, append_assoc, length, length-append, Bool, true, false, ◌≡◌,
  refl, sym, ◌∙◌, ap, ap₂, arith, if◌then◌else◌,
}
use wake.Optimizer.{
  Term, Terms, arg, lit, redux, fun, no_terms, term, is_used, terms_of, lookup, transfer,
  begin_stream, unwind, unwound,
}
use wake.Optimizer.Sweep.{replace_term, round, sweep, sweep_terms, pass_sweep}
use wake.Optimizer.Scoped.{uses_of}
use wake.Optimizer.Sweep.Renumber.{trues, trues-append, rank, renumber, renumber_terms}
use wake.Optimizer.Sweep.Streams.{
  stream, lookup-stream, update-stream, transfer-stream, discard-stream, unwind-stream, drop_front,
  set_end,
}

length_kept :
    (env : List Bool) (xs : List Term) (t : Term)
    → length xs ≡ trues env
    → length (xs ++ t ∷ []) ≡ trues (env ++ true ∷ [])
length_kept env xs t e =
    length-append xs (t ∷ []) ∙ ap (λ n. n + 1) e ∙ sym (trues-append env (true ∷ []))

length_dropped :
    (env : List Bool) (xs : List Term)
    → length xs ≡ trues env
    → length xs ≡ trues (env ++ false ∷ [])
length_dropped env xs e = e ∙ let k = trues-append env (false ∷ []) in omega arith

-- What a round adds to the target.
abbrev kept : Bool → List Bool → Term → List Term
kept true env t = renumber (env ++ true ∷ []) t ∷ []
kept false env t = []

length-kept :
    (b : Bool) (env : List Bool) (xs : List Term) (t : Term)
    → length xs ≡ trues env
    → length (xs ++ kept b env t) ≡ trues (env ++ b ∷ [])
length-kept true env xs t e = length_kept env xs _ e
length-kept false env xs t e = ap length (append-nil xs) ∙ length_dropped env xs e

renumber_terms-term :
    (b : Bool) (env : List Bool) (t : Term) (ts : Terms)
    → (if b
        then renumber (env ++ true ∷ []) t ∷ renumber_terms (env ++ true ∷ []) ts
        else renumber_terms (env ++ false ∷ []) ts)
      ≡ kept b env t ++ renumber_terms (env ++ b ∷ []) ts
renumber_terms-term true env t ts = refl
renumber_terms-term false env t ts = refl

round-stream :
    (b : Bool) (t : Term) (env : List Bool) (xs : List Term)
    → length xs ≡ trues env
    → sweep t (stream (env ++ true ∷ []) (xs ++ t ∷ []))
      ≡ (renumber (env ++ true ∷ []) t, stream (env ++ true ∷ []) (xs ++ t ∷ []))
    → round b (sweep t (transfer t (stream env xs))) (stream env xs)
      ≡ stream (env ++ b ∷ []) (xs ++ kept b env t)
round-stream true t env xs e h =
    ap (λ s. replace_term (length xs) (sweep t s).0 (sweep t s).1) (transfer-stream env xs t e)
    ∙ ap (λ r. replace_term (length xs) r.0 r.1) h
    ∙ ap (stream (env ++ true ∷ [])) (set_end xs t _)
round-stream false t env xs e h =
    discard-stream env xs ∙ ap (stream (env ++ false ∷ [])) (sym (append-nil xs))

mutual
  unfolding sweep

  sweep-renumber :
      (t : Term) (env : List Bool) (xs : List Term)
      → length xs ≡ trues env
      → sweep t (stream env xs) ≡ (renumber env t, stream env xs)
  sweep-renumber (arg i) env xs e = refl
  sweep-renumber (lit i v) env xs e = refl
  sweep-renumber (redux i kind args) env xs e =
      ap (λ l. (redux i kind l, stream env xs)) (update-stream env xs args)
  sweep-renumber (fun i output terms) env xs e =
      let body = sweep_terms-renumber_terms terms env xs e in
      let cp = begin_stream (stream env xs) in
      ap (λ s. (fun i (lookup s.source output) (terms_of (unwound cp s)), unwind cp s)) body
      ∙ ap₂
          (λ m l. (
            fun i m (terms_of l),
            unwind cp (stream (env ++ uses_of terms) (xs ++ renumber_terms env terms)),
          ))
          (lookup-stream (env ++ uses_of terms) (xs ++ renumber_terms env terms) output)
          (drop_front xs (renumber_terms env terms))
      ∙ ap
          (λ s.
            (fun i (rank (env ++ uses_of terms) output) (terms_of (renumber_terms env terms)), s))
          (unwind-stream env (uses_of terms) xs (renumber_terms env terms))

  sweep_terms-renumber_terms :
      (ts : Terms) (env : List Bool) (xs : List Term)
      → length xs ≡ trues env
      → sweep_terms ts (stream env xs) ≡ stream (env ++ uses_of ts) (xs ++ renumber_terms env ts)
  sweep_terms-renumber_terms no_terms env xs e =
      ap₂ stream (sym (append-nil env)) (sym (append-nil xs))
  sweep_terms-renumber_terms (term t ts) env xs e =
      let b : Bool = is_used t in
      let one : round b (sweep t (transfer t (stream env xs))) (stream env xs)
          ≡ stream (env ++ b ∷ []) (xs ++ kept b env t) =
        round-stream b t env xs e
          (sweep-renumber t (env ++ true ∷ []) (xs ++ t ∷ []) (length_kept env xs t e)) in
      ap (sweep_terms ts) one
      ∙ sweep_terms-renumber_terms ts (env ++ b ∷ []) (xs ++ kept b env t)
          (length-kept b env xs t e)
      ∙ ap₂ stream (append_assoc env (b ∷ []) (uses_of ts)) (
          append_assoc xs (kept b env t) (renumber_terms (env ++ b ∷ []) ts)
          ∙ ap (λ l. xs ++ l) (sym (renumber_terms-term b env t ts)))

pub pass_sweep-renumber : (t : Term) → pass_sweep t ≡ renumber (true ∷ []) t
unfolding pass_sweep
pass_sweep-renumber t = ap (λ r. r.0) (sweep-renumber t (true ∷ []) (t ∷ []) refl)
