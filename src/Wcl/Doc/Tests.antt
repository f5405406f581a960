-- ===== src/Wcl/Doc/Tests.antt =====
-- Runs and instances of the ropes, over a decoder of ASCII.
use wake.Prelude.{
  ℕ, ◌≤◌, ◌<◌, [], ◌∷◌, ◌++◌, Option, none, some, true, Bytes, codes, length, ◌≡◌, refl, arith, ltb,
  List, if◌then◌else◌,
}
use wake.Wcl.Doc.State.{doc_state_ops}
use wake.Wcl.Doc.Text.{
  Point, Fits, reading, bytes_of, newlines_of, any_newline, first_line, last_line, lines, spaces_of,
  width_of, widest,
}
use wake.Wcl.Doc.Measures.{reading-append}
use wake.Wcl.Doc.Rope.{
  Doc, DocBuilder, from_string, concat, append, undo, build, as_string, state, string_impl,
  sum_states,
}
use wake.Wcl.Doc.Content.{
  IsUtf8, Decodes, end, next, IsMeasured, from_string-reading, concat-IsMeasured,
}
use wake.Wcl.Doc.Builder.{IsSummed, undo-append, build-IsMeasured, texts, all_points}

abbrev ascii : Bytes → Option (ℕ × ℕ)
ascii [] = none
ascii (b ∷ s) = if ltb b 128 then some (1, b) else none

abbrev ascii_width : ℕ → ℕ
ascii_width c = if ltb c 32 then 0 else 1

ascii_fits : (s : Bytes) (n c : ℕ) → ascii s ≡ some (n, c) → (0 < n) × (n ≤ length s)
ascii_fits [] n c h = cc
ascii_fits (b ∷ s) n c h = ground arith

ascii_starts : (s t : Bytes) (n c : ℕ) → ascii s ≡ some (n, c) → ascii (s ++ t) ≡ some (n, c)
ascii_starts [] t n c h = cc
ascii_starts (b ∷ s) t n c h = h

ascii-IsUtf8 : IsUtf8 ascii ascii_width
ascii-IsUtf8 = record { fits = ascii_fits; starts = ascii_starts; flat = refl }

abbrev point : ℕ → Point
point c = record { size = 1; codepoint = c }

abbrev ab : List Point
ab = point b'a' ∷ point b'\n' ∷ []

abbrev wide : List Point
wide = point b'b' ∷ point b' ' ∷ point b'c' ∷ []

decodes_ab : Decodes ascii (codes "a\n") ab
decodes_ab = next refl (omega arith) (next refl (omega arith) end)

decodes_wide : Decodes ascii (codes "b c") wide
decodes_wide = next refl (omega arith) (next refl (omega arith) (next refl (omega arith) end))

Fits-both : Fits ascii_width (ab ++ wide)
unfolding bytes_of newlines_of spaces_of width_of
Fits-both = omega arith

Fits-ab : Fits ascii_width ab
unfolding bytes_of newlines_of spaces_of width_of
Fits-ab = omega arith

reading_of_both : reading ascii_width (ab ++ wide) ≡ record {
  byte_count = record { count = 5 };
  newline_count = record { count = 1 };
  first_width = record { wrapped = true; width = 1 };
  last_width = record { wrapped = true; width = 3 };
  max_width = record {
    first_width = record { wrapped = true; width = 1 };
    last_width = record { wrapped = true; width = 3 };
    width = 3;
  };
  last_ws_count = record { wrapped = true; count = 1 };
}
unfolding reading bytes_of newlines_of any_newline first_line last_line lines spaces_of width_of
    widest
reading_of_both = refl

from_string_runs :
    from_string ascii (doc_state_ops ascii_width) (codes "a\nb c")
    ≡ some (reading ascii_width (ab ++ wide))
unfolding from_string reading bytes_of newlines_of any_newline first_line last_line lines spaces_of
    width_of widest
from_string_runs = refl

reading-append_example :
    (doc_state_ops ascii_width).plus (reading ascii_width ab) (reading ascii_width wide)
    ≡ reading ascii_width (ab ++ wide)
reading-append_example = reading-append ascii_width ab wide Fits-both

from_string-reading_example :
    from_string ascii (doc_state_ops ascii_width) (codes "a\n") ≡ some (reading ascii_width ab)
from_string-reading_example = from_string-reading ascii-IsUtf8 (codes "a\n") ab decodes_ab Fits-ab

abbrev doc_ab : Doc
doc_ab = string_impl (reading ascii_width ab) (codes "a\n")

abbrev doc_wide : Doc
doc_wide = string_impl (reading ascii_width wide) (codes "b c")

IsMeasured-ab : IsMeasured ascii-IsUtf8 doc_ab ab
unfolding as_string state
IsMeasured-ab = record { spells = decodes_ab; stored = refl }

IsMeasured-wide : IsMeasured ascii-IsUtf8 doc_wide wide
unfolding as_string state
IsMeasured-wide = record { spells = decodes_wide; stored = refl }

concat-IsMeasured_example :
    (as_string (concat ascii ascii_width doc_ab doc_wide) ≡ as_string doc_ab ++ as_string doc_wide)
    × IsMeasured ascii-IsUtf8 (concat ascii ascii_width doc_ab doc_wide) (ab ++ wide)
concat-IsMeasured_example =
    concat-IsMeasured ascii-IsUtf8 doc_ab doc_wide ab wide IsMeasured-ab IsMeasured-wide Fits-both

abbrev filled : DocBuilder
filled = record {
  docs = doc_ab ∷ doc_wide ∷ [];
  total =
      (doc_state_ops ascii_width).plus
        ((doc_state_ops ascii_width).plus (doc_state_ops ascii_width).identity
          (reading ascii_width ab))
        (reading ascii_width wide);
}

filled-IsSummed : IsSummed ascii ascii_width filled
unfolding sum_states
filled-IsSummed = refl

undo-append_example : undo ascii ascii_width (append ascii ascii_width filled doc_ab) ≡ some filled
undo-append_example = undo-append ascii ascii_width filled doc_ab filled-IsSummed

Fits-all : Fits ascii_width (all_points (ab ∷ wide ∷ []))
unfolding all_points bytes_of newlines_of spaces_of width_of
Fits-all = omega arith

build-IsMeasured_example :
    (d : Doc) × ((build ascii ascii_width filled).0 ≡ some d)
    × (as_string d ≡ texts filled.docs)
    × (state d ≡ filled.total)
    × IsMeasured ascii-IsUtf8 d (all_points (ab ∷ wide ∷ []))
    × ((build ascii ascii_width filled).1.docs ≡ [])
    × ((build ascii ascii_width filled).1.total ≡ reading ascii_width [])
build-IsMeasured_example =
    build-IsMeasured ascii-IsUtf8 filled (ab ∷ wide ∷ []) filled-IsSummed
      (IsMeasured-ab, (IsMeasured-wide, tt)) Fits-all
