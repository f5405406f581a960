-- ===== src/Wcl/Doc/Rope.antt =====
-- src/wcl/doc_state.h, `from_string`, and src/wcl/doc.h: ropes that store their measures, and the
-- builder. `iterate` and `charwidth` stand for `utf8proc_iterate` (a negative result is `none`) and
-- `utf8proc_charwidth` of the vendored utf8proc. `none` is a failed assertion, or an access out of
-- range. A vector is a list, its back last.
use wake.Prelude.{
  ℕ, zero, suc, ◌+◌, ◌-◌, ◌/◌, List, [], ◌∷◌, ◌++◌, true, false, ◌||◌, ◌==◌, leb, Option, none,
  some, Bytes, length, drop, get_elem?, if◌then◌else◌,
}
use mathlib.Core.Option
use mathlib.Core.List.{foldl}
use wake.Wcl.Doc.State.{StateOps, DocState, doc_state_ops}

-- from_string<State>. A size of 0 or a code point of 0 fails an assertion.
module _ {S : Type 0} (iterate : Bytes → Option (ℕ × ℕ)) (ops : StateOps S) where
  unfoldable pub from_string_loop : ℕ → Bytes → S → Option S
  from_string_loop fuel [] out = some out
  from_string_loop zero (b ∷ s) out = none
  from_string_loop (suc fuel) (b ∷ s) out = elim (iterate (b ∷ s)) [
    | none ↦ none
    | some (byte_size, codepoint) ↦ elim (byte_size == 0 || codepoint == 0) [
      | true ↦ none
      | false ↦
          from_string_loop fuel (drop byte_size (b ∷ s))
            (ops.plus out (ops.inject byte_size codepoint))
    ]
  ]

  -- Each round reads a byte at least, so the length is fuel enough.
  unfoldable pub from_string : Bytes → Option S
  unfolding from_string_loop
  from_string str = from_string_loop (length str) str ops.identity

pub data Doc : Type 0 where
  string_impl : DocState → Bytes → Doc
  pair_impl : DocState → Doc → Doc → Doc

unfoldable pub state : Doc → DocState
state (string_impl s str) = s
state (pair_impl s left right) = s

-- write and as_string
unfoldable pub as_string : Doc → Bytes
as_string (string_impl s str) = str
as_string (pair_impl s left right) = as_string left ++ as_string right

pub record DocBuilder : Type 0 where
  pub docs : List Doc
  pub total : DocState

-- An empty vector has no back.
unfoldable pub pop_back : List Doc → Option (List Doc)
pop_back [] = none
pop_back (d ∷ []) = some []
pop_back (d ∷ e ∷ ds) = Option.map (λ rest. d ∷ rest) (pop_back (e ∷ ds))

module _ (iterate : Bytes → Option (ℕ × ℕ)) (charwidth : ℕ → ℕ) where
  abbrev plus : DocState → DocState → DocState
  plus = (doc_state_ops charwidth).plus

  abbrev identity : DocState
  identity = (doc_state_ops charwidth).identity

  unfoldable pub lit : Bytes → Option Doc
  lit str = elim (from_string iterate (doc_state_ops charwidth) str) [
    | none ↦ none
    | some s ↦ some (string_impl s str)
  ]

  unfoldable pub concat : Doc → Doc → Doc
  unfolding state
  concat l r = pair_impl (plus (state l) (state r)) l r

  abbrev pub empty_builder : DocBuilder
  empty_builder = record { docs = []; total = identity }

  unfoldable pub append : DocBuilder → Doc → DocBuilder
  unfolding state
  append b other = record { docs = b.docs ++ other ∷ []; total = plus b.total (state other) }

  unfoldable pub sum_states : List Doc → DocState
  unfolding state
  sum_states = foldl (λ s r. plus s (state r)) identity

  unfoldable pub undo : DocBuilder → Option DocBuilder
  unfolding pop_back sum_states
  undo b = Option.map (λ docs. record { docs = docs; total = sum_states docs }) (pop_back b.docs)

  unfoldable pub both : Option Doc → Option Doc → Option Doc
  unfolding concat
  both (some left) (some right) = some (concat left right)
  both _ _ = none

  -- `stop` is the code's `end + 1`, which is a natural number also for the empty range.
  unfoldable pub merge : ℕ → List Doc → ℕ → ℕ → Option Doc
  merge zero docs start stop = none
  merge (suc fuel) docs start stop =
      let middle = (start + stop - 1) / 2 in
      let halves = both (merge fuel docs start (middle + 1)) (merge fuel docs (middle + 1) stop) in
      if leb stop start then lit [] else if stop == start + 1 then get_elem? docs start else halves

  -- The range shrinks in each call, so its size and one more is fuel enough. The builder is left empty.
  unfoldable pub build : DocBuilder → Option Doc × DocBuilder
  unfolding merge both
  build b =
      (merge (length b.docs + 1) b.docs 0 (length b.docs), record { docs = []; total = identity })
