-- ===== src/Wcl/Doc/Builder.antt =====
-- The builder of src/wcl/doc.h: `undo` takes back `append`, and `build` makes one rope of all parts.
use mathlib.Core.List.{foldl, foldl-append}
use wake.Prelude.{
  ℕ, zero, suc, ◌+◌, ◌-◌, ◌/◌, ◌≤◌, ◌<◌, List, [], ◌∷◌, ◌++◌, append-nil, append_assoc, Option,
  some, Bytes, length, length-append, drop, take, take-append-drop, length-drop, get_elem?, ◌≡◌,
  refl, ap, sym, subst, subst₂, ◌∙◌, arith,
}
use wake.Wcl.Doc.State.{doc_state_ops}
use wake.Wcl.Doc.Text.{Point, Fits, reading}
use wake.Wcl.Doc.Measures.{Fits-append, identity-reading, reading-append}
use wake.Wcl.Doc.Rope.{
  Doc, DocBuilder, state, as_string, lit, concat, append, undo, pop_back, sum_states, merge, both,
  build,
}
use wake.Wcl.Doc.Content.{IsUtf8, end, IsMeasured, lit-IsMeasured, concat-IsMeasured}

pop_back-concat : (ds : List Doc) (d : Doc) → pop_back (ds ++ d ∷ []) ≡ some ds
unfolding pop_back
pop_back-concat [] d = refl
pop_back-concat (e ∷ []) d = refl
pop_back-concat (e ∷ f ∷ ds) d = rw (pop_back-concat (f ∷ ds) d)

-- The texts of all parts, in order.
unfoldable pub texts : List Doc → Bytes
texts [] = []
texts (d ∷ ds) = as_string d ++ texts ds

unfoldable pub all_points : List (List Point) → List Point
all_points [] = []
all_points (ps ∷ pss) = ps ++ all_points pss

texts-append : (xs ys : List Doc) → texts (xs ++ ys) ≡ texts xs ++ texts ys
unfolding texts
texts-append [] ys = refl
texts-append (d ∷ xs) ys = simp (texts-append xs ys, append_assoc)

all_points-append :
    (xs ys : List (List Point)) → all_points (xs ++ ys) ≡ all_points xs ++ all_points ys
unfolding all_points
all_points-append [] ys = refl
all_points-append (d ∷ xs) ys = simp (all_points-append xs ys, append_assoc)

get_elem?-middle :
    (xs : List Doc) (d : Doc) (ys : List Doc) → get_elem? (xs ++ d ∷ ys) (length xs) ≡ some d
get_elem?-middle [] d ys = refl
get_elem?-middle (x ∷ xs) d ys = get_elem?-middle xs d ys

module _ (iterate : Bytes → Option (ℕ × ℕ)) (charwidth : ℕ → ℕ) where
  -- The builder's measures are the sum of those of its parts.
  abbrev pub IsSummed : DocBuilder → Type 0
  IsSummed b = b.total ≡ sum_states iterate charwidth b.docs

  pub append-IsSummed :
      (b : DocBuilder) (d : Doc) → IsSummed b → IsSummed (append iterate charwidth b d)
  unfolding append sum_states
  append-IsSummed b d h = rw (foldl-append, h)

  -- Where a builder's measures are the sum of its parts', `undo` after `append` gives the builder back.
  pub undo-append :
      (b : DocBuilder) (d : Doc)
      → IsSummed b
      → undo iterate charwidth (append iterate charwidth b d) ≡ some b
  unfolding undo append
  undo-append b d h =
      rw (pop_back-concat b.docs d) (λ i. some (record { docs = b.docs; total = sym h i }))

module _ (iterate : Bytes → Option (ℕ × ℕ)) (charwidth : ℕ → ℕ) (fuel : ℕ) (docs : List Doc) where
  merge_none :
      (start stop : ℕ)
      → stop ≤ start
      → merge iterate charwidth (suc fuel) docs start stop ≡ lit iterate charwidth []
  unfolding merge
  merge_none start stop h = ground arith

  merge_one :
      (start stop : ℕ)
      → stop ≡ start + 1
      → merge iterate charwidth (suc fuel) docs start stop ≡ get_elem? docs start
  unfolding merge
  merge_one start stop h = ground arith

  merge_halves :
      (start stop middle : ℕ)
      → start + 1 < stop
      → middle ≡ (start + stop - 1) / 2
      → merge iterate charwidth (suc fuel) docs start stop
        ≡ both iterate charwidth
            (merge iterate charwidth fuel docs start (middle + 1))
            (merge iterate charwidth fuel docs (middle + 1) stop)
  unfolding merge
  merge_halves start stop middle h e = rw e (ground arith)

length-take_le {ℓ} : {A : Type ℓ} (k : ℕ) (xs : List A) → k ≤ length xs → length (take k xs) ≡ k
length-take_le zero xs h = refl
length-take_le (suc k) [] h = absurd (omega arith)
length-take_le (suc k) (x ∷ xs) h = ap suc (length-take_le k xs (omega arith))

module _ {iterate : Bytes → Option (ℕ × ℕ)} {charwidth : ℕ → ℕ}
    (utf8 : IsUtf8 iterate charwidth) where
  -- The parts hold these texts, one for each.
  abbrev pub Contents : List Doc → List (List Point) → Type 0
  Contents [] [] = Unit
  Contents [] (ps ∷ pss) = ⊥
  Contents (d ∷ ds) [] = ⊥
  Contents (d ∷ ds) (ps ∷ pss) = IsMeasured utf8 d ps × Contents ds pss

  Contents-take :
      (k : ℕ) (ds : List Doc) (pss : List (List Point))
      → Contents ds pss
      → Contents (take k ds) (take k pss)
  Contents-take zero ds pss h = tt
  Contents-take (suc k) [] [] h = tt
  Contents-take (suc k) (d ∷ ds) (ps ∷ pss) h = (h.0, Contents-take k ds pss h.1)
  Contents-take (suc k) [] (ps ∷ pss) h = absurd h
  Contents-take (suc k) (d ∷ ds) [] h = absurd h

  Contents-drop :
      (k : ℕ) (ds : List Doc) (pss : List (List Point))
      → Contents ds pss
      → Contents (drop k ds) (drop k pss)
  Contents-drop zero ds pss h = h
  Contents-drop (suc k) [] [] h = tt
  Contents-drop (suc k) (d ∷ ds) (ps ∷ pss) h = Contents-drop k ds pss h.1
  Contents-drop (suc k) [] (ps ∷ pss) h = absurd h
  Contents-drop (suc k) (d ∷ ds) [] h = absurd h

  -- A rope that holds all the texts, and stores the measures of the whole.
  abbrev pub Merged : Option Doc → List Doc → List (List Point) → Type 0
  Merged o ds pss =
      (d : Doc) × (o ≡ some d) × (as_string d ≡ texts ds) × IsMeasured utf8 d (all_points pss)

  both-Merged :
      (o p : Option Doc) (ds es : List Doc) (pss qss : List (List Point))
      → Merged o ds pss
      → Merged p es qss
      → Fits charwidth (all_points (pss ++ qss))
      → Merged (both iterate charwidth o p) (ds ++ es) (pss ++ qss)
  unfolding both
  both-Merged o p ds es pss qss (d, eo, ed, md) (e, ep, ee, me) h =
      let fits : Fits charwidth (all_points pss ++ all_points qss) =
        rw (← all_points-append pss qss) h in
      let (text, measured) =
        concat-IsMeasured utf8 d e (all_points pss) (all_points qss) md me fits in
      (
        concat iterate charwidth d e,
        rw (eo, ep, both),
        rw (text, ed, ee, texts-append ds es),
        rw (all_points-append pss qss) measured,
      )

  halves-Merged :
      (o p : Option Doc) (k : ℕ) (ds : List Doc) (pss : List (List Point))
      → Merged o (take k ds) (take k pss)
      → Merged p (drop k ds) (drop k pss)
      → Fits charwidth (all_points pss)
      → Merged (both iterate charwidth o p) ds pss
  halves-Merged o p k ds pss ho hp h =
      subst₂ (Merged (both iterate charwidth o p)) (take-append-drop k ds) (take-append-drop k pss)
        (both-Merged o p _ _ _ _ ho hp (rw take-append-drop h))

  Fits-take :
      (k : ℕ) (pss : List (List Point))
      → Fits charwidth (all_points pss)
      → Fits charwidth (all_points (take k pss)) × Fits charwidth (all_points (drop k pss))
  Fits-take k pss h =
      Fits-append charwidth (all_points (take k pss)) (all_points (drop k pss))
        (rw (← all_points-append (take k pss) (drop k pss), take-append-drop k pss) h)

  merge-Merged :
      (fuel : ℕ) (pre mid post : List Doc) (pss : List (List Point)) (docs : List Doc) (stop : ℕ)
      → docs ≡ pre ++ (mid ++ post)
      → stop ≡ length pre + length mid
      → length mid < fuel
      → Contents mid pss
      → Fits charwidth (all_points pss)
      → Merged (merge iterate charwidth fuel docs (length pre) stop) mid pss
  unfolding all_points texts
  merge-Merged zero pre mid post pss docs stop ed es l c h = absurd (omega arith)
  merge-Merged (suc fuel) pre [] post (ps ∷ pss) docs stop ed es l c h = absurd c
  merge-Merged (suc fuel) pre [] post [] docs stop ed es l c h =
      let (d, e, text, measured) = lit-IsMeasured utf8 [] [] end h in
      (
        d,
        merge_none iterate charwidth fuel docs (length pre) stop (omega arith) ∙ e,
        text,
        measured,
      )
  merge-Merged (suc fuel) pre (d ∷ ds) post [] docs stop ed es l c h = absurd c
  merge-Merged (suc fuel) pre (d ∷ []) post (ps ∷ q ∷ pss) docs stop ed es l c h = absurd c.1
  merge-Merged (suc fuel) pre (d ∷ []) post (ps ∷ []) docs stop ed es l c h = (
    d,
    merge_one iterate charwidth fuel docs (length pre) stop (omega arith)
        ∙ rw ed (get_elem?-middle pre d post),
    sym (append-nil (as_string d)),
    rw append-nil c.0,
  )
  merge-Merged (suc fuel) pre (d ∷ e ∷ ds) post pss docs stop ed es l c h =
      let ds' : List Doc = d ∷ e ∷ ds in
      let middle : ℕ = (length pre + stop - 1) / 2 in
      let k : ℕ = middle + 1 - length pre in
      let size : length (take k ds') ≡ k = length-take_le k ds' (omega arith) in
      let left =
        merge-Merged fuel pre (take k ds') (drop k ds' ++ post) (take k pss) docs (middle + 1)
          (rw (← append_assoc (take k ds') (drop k ds') post, take-append-drop k ds') ed)
          (omega arith) (omega arith) (Contents-take k ds' pss c) (Fits-take k pss h).0 in
      let right =
        merge-Merged fuel (pre ++ take k ds') (drop k ds') post (drop k pss) docs stop
          (rw
            (
              append_assoc pre,
              ← append_assoc (take k ds') (drop k ds') post,
              take-append-drop k ds',
            )
            ed)
          (omega (arith, length-append pre (take k ds'), length-drop k ds'))
          (omega (arith, length-drop k ds')) (Contents-drop k ds' pss c) (Fits-take k pss h).1 in
      rw (merge_halves iterate charwidth fuel docs (length pre) stop middle (omega arith) refl) (
        halves-Merged _ _ k ds' pss left
          (subst
            (λ from. Merged (merge iterate charwidth fuel docs from stop) (drop k ds') (drop k pss))
            (omega (arith, length-append pre (take k ds'))) right)
          h)

  sum-reading :
      (done : List Point) (ds : List Doc) (pss : List (List Point))
      → Contents ds pss
      → Fits charwidth (done ++ all_points pss)
      → foldl (λ s r. (doc_state_ops charwidth).plus s (state r)) (reading charwidth done) ds
        ≡ reading charwidth (done ++ all_points pss)
  unfolding all_points
  sum-reading done [] [] c h = rw append-nil
  sum-reading done [] (ps ∷ pss) c h = absurd c
  sum-reading done (d ∷ ds) [] c h = absurd c
  sum-reading done (d ∷ ds) (ps ∷ pss) (m, c) h =
      let whole : Fits charwidth ((done ++ ps) ++ all_points pss) = rw append_assoc h in
      rw (m.stored, reading-append charwidth done ps (Fits-append charwidth (done ++ ps) _ whole).0)
        (sum-reading (done ++ ps) ds pss c whole ∙ ap (reading charwidth) (append_assoc done ps _))

  -- `build` on parts that hold texts whose measures together fit a size_t always succeeds. The rope
  -- holds the texts in order, stores the measures of the whole text, and these are the measures that
  -- the builder kept while it was filled. The builder has no parts then, and the measures of the empty
  -- text.
  pub build-IsMeasured :
      (b : DocBuilder) (pss : List (List Point))
      → IsSummed iterate charwidth b
      → Contents b.docs pss
      → Fits charwidth (all_points pss)
      → (d : Doc) × ((build iterate charwidth b).0 ≡ some d)
        × (as_string d ≡ texts b.docs)
        × (state d ≡ b.total)
        × IsMeasured utf8 d (all_points pss)
        × ((build iterate charwidth b).1.docs ≡ [])
        × ((build iterate charwidth b).1.total ≡ reading charwidth [])
  unfolding build sum_states
  build-IsMeasured b pss sums c h =
      let (d, built, text, measured) =
        merge-Merged (length b.docs + 1) [] b.docs [] pss b.docs (length b.docs)
          (sym (append-nil b.docs)) (omega arith) (omega arith) c h in
      (
        d,
        built,
        text,
        measured.stored
            ∙ sym (sums ∙ rw (identity-reading charwidth) (sum-reading [] b.docs pss c h)),
        measured,
        refl,
        identity-reading charwidth,
      )
