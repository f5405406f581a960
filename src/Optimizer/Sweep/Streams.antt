-- ===== src/Optimizer/Sweep/Streams.antt =====
-- The streams of src/optimizer/ssa.h while sweep runs: what they hold, by which terms are used.
use wake.Prelude.{
  ℕ, zero, suc, ◌+◌, ◌-◌, List, [], ◌∷◌, ◌++◌, length, set, take, drop, get_elem?, Bool, true,
  false, ltb, ◌≡◌, refl, sym, ◌∙◌, ap, ap₂, arith, map,
}
use wake.Optimizer.{
  Term, TermStream, lookup, or_invalid, invalid, transfer, discard, begin_stream, unwind, update,
}
use wake.Optimizer.Sweep.Renumber.{trues, rank, rank_of}

-- What the source's map holds for the terms so far.
abbrev pub ranks : ℕ → List Bool → List ℕ
ranks k [] = []
ranks k (true ∷ env) = k ∷ ranks (suc k) env
ranks k (false ∷ env) = invalid ∷ ranks k env

abbrev pub stream : List Bool → List Term → TermStream
stream env xs = record { target = xs; source = record { start = 0; entries = ranks 0 env } }

ranks-true :
    (k : ℕ) (env : List Bool) → ranks k (env ++ true ∷ []) ≡ ranks k env ++ (k + trues env) ∷ []
ranks-true k [] = ap (λ n. n ∷ []) (omega arith)
ranks-true k (true ∷ env) =
    ap (λ l. k ∷ l) (ranks-true (suc k) env ∙ ap (λ n. ranks (suc k) env ++ n ∷ []) (omega arith))
ranks-true k (false ∷ env) = ap (λ l. invalid ∷ l) (ranks-true k env)

ranks-false : (k : ℕ) (env : List Bool) → ranks k (env ++ false ∷ []) ≡ ranks k env ++ invalid ∷ []
ranks-false k [] = refl
ranks-false k (true ∷ env) = ap (λ l. k ∷ l) (ranks-false (suc k) env)
ranks-false k (false ∷ env) = ap (λ l. invalid ∷ l) (ranks-false k env)

-- The entry of a position, by the description.
abbrev rank_from : ℕ → List Bool → ℕ → ℕ
rank_from k env x = rank_of (get_elem? env x) (k + trues (take x env))

get_elem?-ranks :
    (k : ℕ) (env : List Bool) (x : ℕ) → or_invalid (get_elem? (ranks k env) x) ≡ rank_from k env x
get_elem?-ranks k [] x = refl
get_elem?-ranks k (true ∷ env) zero = omega arith
get_elem?-ranks k (false ∷ env) zero = refl
get_elem?-ranks k (true ∷ env) (suc x) =
    get_elem?-ranks (suc k) env x ∙ ap (rank_of (get_elem? env x)) (omega arith)
get_elem?-ranks k (false ∷ env) (suc x) = get_elem?-ranks k env x

pub lookup-stream :
    (env : List Bool) (xs : List Term) (x : ℕ) → lookup (stream env xs).source x ≡ rank env x
unfolding lookup
lookup-stream env xs x =
    rw (lookup, ltb_zero x)
      (ap (λ y. or_invalid (get_elem? (ranks 0 env) y)) (minus_zero x)
        ∙ get_elem?-ranks 0 env x
        ∙ ap (rank_of (get_elem? env x)) (omega arith))
  where
    ltb_zero : (x : ℕ) → ltb x 0 ≡ false
    ltb_zero x = ground arith

    minus_zero : (x : ℕ) → x - 0 ≡ x
    minus_zero x = omega arith

pub update-stream :
    (env : List Bool) (xs : List Term) (args : List ℕ)
    → update (stream env xs).source args ≡ map (rank env) args
update-stream env xs [] = refl
update-stream env xs (x ∷ args) = ap₂ ◌∷◌ (lookup-stream env xs x) (update-stream env xs args)

-- A transfer and the end of a function, on streams of this form.
pub transfer-stream :
    (env : List Bool) (xs : List Term) (t : Term)
    → length xs ≡ trues env
    → transfer t (stream env xs) ≡ stream (env ++ true ∷ []) (xs ++ t ∷ [])
transfer-stream env xs t e =
    ap (λ l. record { target = xs ++ t ∷ []; source = record { start = 0; entries = l } })
      (ap (λ n. ranks 0 env ++ n ∷ []) (e ∙ omega arith) ∙ sym (ranks-true 0 env))

pub discard-stream :
    (env : List Bool) (xs : List Term) → discard (stream env xs) ≡ stream (env ++ false ∷ []) xs
discard-stream env xs =
    ap (λ l. record { target = xs; source = record { start = 0; entries = l } })
      (sym (ranks-false 0 env))

module _ {ℓ} {A : Type ℓ} where
  pub take_front : (xs ys : List A) → take (length xs) (xs ++ ys) ≡ xs
  take_front [] [] = refl
  take_front [] (y ∷ ys) = refl
  take_front (x ∷ xs) ys = ap (λ l. x ∷ l) (take_front xs ys)

  pub drop_front : (xs ys : List A) → drop (length xs) (xs ++ ys) ≡ ys
  drop_front [] [] = refl
  drop_front [] (y ∷ ys) = refl
  drop_front (x ∷ xs) ys = drop_front xs ys

  pub set_end : (xs : List A) (x y : A) → set (xs ++ x ∷ []) (length xs) y ≡ xs ++ y ∷ []
  set_end [] x y = refl
  set_end (z ∷ xs) x y = ap (λ l. z ∷ l) (set_end xs x y)

-- The entries of more terms stand behind the entries of the first ones.
ranks-append :
    (k : ℕ) (env more : List Bool) → (l : List ℕ) × (ranks k (env ++ more) ≡ ranks k env ++ l)
ranks-append k [] more = (ranks k more, refl)
ranks-append k (true ∷ env) more =
    let r = ranks-append (suc k) env more in (r.0, ap (λ l. k ∷ l) r.1)
ranks-append k (false ∷ env) more =
    let r = ranks-append k env more in (r.0, ap (λ l. invalid ∷ l) r.1)

pub unwind-stream :
    (env more : List Bool) (xs ys : List Term)
    → unwind (begin_stream (stream env xs)) (stream (env ++ more) (xs ++ ys)) ≡ stream env xs
unwind-stream env more xs ys =
    let r = ranks-append 0 env more in
    ap₂ (λ l m. record { target = l; source = record { start = 0; entries = m } })
      (take_front xs ys)
      (ap₂ take (all_entries (length (ranks 0 env))) r.1 ∙ take_front (ranks 0 env) r.0)
  where
    all_entries : (n : ℕ) → 0 + n - 0 ≡ n
    all_entries n = omega arith
