-- ===== src/Wcl/Doc/Content.antt =====
-- What the rope's measures and the builder mean: `from_string`, `concat`, `append` and `build` keep
-- the measures that the text of the rope has.
use wake.Prelude.{
  ℕ, zero, suc, ◌≤◌, ◌<◌, List, [], ◌∷◌, ◌++◌, append-nil, append_assoc, Option, some, Bytes,
  length, length-drop_le, drop, ◌≡◌, refl, ap, ◌∙◌, arith,
}
use wake.Wcl.Doc.State.{newline, doc_state_ops, DocState}
use wake.Wcl.Doc.Text.{Point, Fits, reading}
use wake.Wcl.Doc.Measures.{Fits-append, identity-reading, reading-append, inject-reading}
use wake.Wcl.Doc.Rope.{
  from_string, from_string_loop, Doc, string_impl, state, as_string, lit, concat,
}

-- What utf8proc documents: a decoded code point takes a byte at least and no byte past the end, it
-- does not depend on what follows, and a newline has no width.
pub record IsUtf8 (iterate : Bytes → Option (ℕ × ℕ)) (charwidth : ℕ → ℕ) : Type 0 where
  pub fits : (s : Bytes) (n c : ℕ) → iterate s ≡ some (n, c) → (0 < n) × (n ≤ length s)
  pub starts : (s t : Bytes) (n c : ℕ) → iterate s ≡ some (n, c) → iterate (s ++ t) ≡ some (n, c)
  pub flat : charwidth newline ≡ 0

-- A text spells code points, none of them 0.
pub data Decodes (iterate : Bytes → Option (ℕ × ℕ)) : Bytes → List Point → Type 0 where
  end : Decodes iterate [] []
  next :
      {b n c : ℕ} {s : Bytes} {pts : List Point}
      → iterate (b ∷ s) ≡ some (n, c)
      → 0 < c
      → Decodes iterate (drop n (b ∷ s)) pts
      → Decodes iterate (b ∷ s) (record { size = n; codepoint = c } ∷ pts)

drop-append {ℓ} :
    {A : Type ℓ} (n : ℕ) (s t : List A) → n ≤ length s → drop n (s ++ t) ≡ drop n s ++ t
drop-append zero s t h = refl
drop-append (suc n) [] t h = absurd (omega arith)
drop-append (suc n) (b ∷ s) t h = drop-append n s t (omega arith)

length-drop_lt : (n b : ℕ) (s : Bytes) → 0 < n → length (drop n (b ∷ s)) ≤ length s
length-drop_lt zero b s h = absurd (omega arith)
length-drop_lt (suc n) b s h = length-drop_le n s

module _ {iterate : Bytes → Option (ℕ × ℕ)} {charwidth : ℕ → ℕ}
    (utf8 : IsUtf8 iterate charwidth) where
  abbrev measures : List Point → DocState
  measures = reading charwidth

  from_string_step :
      (fuel b n c : ℕ) (s : Bytes) (out : DocState)
      → iterate (b ∷ s) ≡ some (n, c)
      → 0 < n
      → 0 < c
      → from_string_loop iterate (doc_state_ops charwidth) (suc fuel) (b ∷ s) out
        ≡ from_string_loop iterate
            (doc_state_ops charwidth)
            fuel
            (drop n (b ∷ s))
            ((doc_state_ops charwidth).plus out ((doc_state_ops charwidth).inject n c))
  unfolding from_string_loop
  from_string_step fuel b zero c s out e hn hc = absurd (omega arith)
  from_string_step fuel b (suc n) zero s out e hn hc = absurd (omega arith)
  from_string_step fuel b (suc n) (suc c) s out e hn hc = rw (e, from_string_loop) (ground arith)

  plus_point :
      (done : List Point) (p : Point) (rest : List Point)
      → Fits charwidth (done ++ p ∷ rest)
      → (doc_state_ops charwidth).plus
          (measures done)
          ((doc_state_ops charwidth).inject p.size p.codepoint)
        ≡ measures (done ++ p ∷ [])
  plus_point done p rest h =
      let whole : Fits charwidth ((done ++ p ∷ []) ++ rest) = rw append_assoc h in
      ap ((doc_state_ops charwidth).plus (measures done)) (inject-reading charwidth p utf8.flat)
      ∙ reading-append charwidth done (p ∷ []) (Fits-append charwidth (done ++ p ∷ []) rest whole).0

  from_string_loop-reading :
      (fuel : ℕ) (done : List Point) (s : Bytes) (pts : List Point)
      → Decodes iterate s pts
      → length s ≤ fuel
      → Fits charwidth (done ++ pts)
      → from_string_loop iterate (doc_state_ops charwidth) fuel s (measures done)
        ≡ some (measures (done ++ pts))
  from_string_loop-reading fuel done s pts end l h = rw append-nil (unfold from_string_loop in refl)
  from_string_loop-reading zero done s pts (next e c r) l h = absurd (omega arith)
  from_string_loop-reading (suc fuel) done s pts (next {b} {n} {c} {s = s'} {pts = rest} e pos r) l
        h =
      let p : Point = record { size = n; codepoint = c } in
      let size_pos = (utf8.fits (b ∷ s') n c e).0 in
      from_string_step fuel b n c s' (measures done) e size_pos pos
      ∙ ap (from_string_loop iterate (doc_state_ops charwidth) fuel (drop n (b ∷ s')))
          (plus_point done p rest h)
      ∙ from_string_loop-reading fuel (done ++ p ∷ []) (drop n (b ∷ s')) rest r
          (omega (arith, length-drop_lt n b s')) (rw append_assoc h)
      ∙ ap (λ all. some (measures all)) (append_assoc done (p ∷ []) rest)

  -- A text that spells code points, none of them 0, whose measures fit a size_t has all six measures
  -- of that text: byte and newline counts, widths of the first, last and widest line, spaces of the
  -- last line.
  pub from_string-reading :
      (s : Bytes) (pts : List Point)
      → Decodes iterate s pts
      → Fits charwidth pts
      → from_string iterate (doc_state_ops charwidth) s ≡ some (measures pts)
  unfolding from_string
  from_string-reading s pts d h =
      rw (identity-reading charwidth)
        (from_string_loop-reading (length s) [] s pts d (omega arith) h)

  -- Texts one after the other spell their code points one after the other.
  pub Decodes-append :
      {s t : Bytes} {ps qs : List Point}
      → Decodes iterate s ps
      → Decodes iterate t qs
      → Decodes iterate (s ++ t) (ps ++ qs)
  Decodes-append end d = d
  Decodes-append {t = t} (next {b} {n} {c} {s} e pos r) d =
      next (utf8.starts (b ∷ s) t n c e) pos
        (rw (drop-append n (b ∷ s) t (utf8.fits (b ∷ s) n c e).1) (Decodes-append r d))

  -- The rope holds a text, and stores the measures of that text.
  pub record IsMeasured (d : Doc) (pts : List Point) : Type 0 where
    pub spells : Decodes iterate (as_string d) pts
    pub stored : state d ≡ measures pts

  -- `doc::lit` of a text that spells code points succeeds, holds that text and stores its measures.
  pub lit-IsMeasured :
      (s : Bytes) (pts : List Point)
      → Decodes iterate s pts
      → Fits charwidth pts
      → (d : Doc) × (lit iterate charwidth s ≡ some d) × (as_string d ≡ s) × IsMeasured d pts
  unfolding lit as_string state
  lit-IsMeasured s pts dec h = (
    string_impl (measures pts) s,
    rw (from_string-reading s pts dec h, lit),
    refl,
    record { spells = dec; stored = refl },
  )

  -- `doc::concat` of two measured ropes holds the one text after the other, and stores the measures
  -- of the whole, if those fit a size_t.
  pub concat-IsMeasured :
      (l r : Doc) (ps qs : List Point)
      → IsMeasured l ps
      → IsMeasured r qs
      → Fits charwidth (ps ++ qs)
      → (as_string (concat iterate charwidth l r) ≡ as_string l ++ as_string r)
        × IsMeasured (concat iterate charwidth l r) (ps ++ qs)
  unfolding concat as_string state
  concat-IsMeasured l r ps qs hl hr h = (
    refl,
    record {
      spells = Decodes-append hl.spells hr.spells;
      stored = rw (hl.stored, hr.stored) (reading-append charwidth ps qs h);
    },
  )
