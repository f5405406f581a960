-- ===== src/Wcl/Doc/Text.antt =====
-- What the measures of src/wcl/doc_state.h stand for: readings of a text as a list of code points,
-- each with the number of its bytes. Nothing here adds up parts.
use Prim.Native.Nat.{ℕ}
use wake.Prelude.{◌+◌, ◌<◌, ◌^◌, max, List, [], ◌∷◌, Bool, false, ◌||◌, ◌==◌, if◌then◌else◌}
use wake.Wcl.Doc.State.{newline, space, DocState}

pub record Point : Type 0 where
  pub size : ℕ
  pub codepoint : ℕ

abbrev pub is_newline : Point → Bool
is_newline p = p.codepoint == newline

unfoldable pub bytes_of : List Point → ℕ
bytes_of [] = 0
bytes_of (p ∷ r) = p.size + bytes_of r

unfoldable pub newlines_of : List Point → ℕ
newlines_of [] = 0
newlines_of (p ∷ r) = (if is_newline p then 1 else 0) + newlines_of r

unfoldable pub any_newline : List Point → Bool
any_newline [] = false
any_newline (p ∷ r) = is_newline p || any_newline r

unfoldable pub first_line : List Point → List Point
first_line [] = []
first_line (p ∷ r) = if is_newline p then [] else p ∷ first_line r

unfoldable pub last_line : List Point → List Point
last_line [] = []
last_line (p ∷ r) = if any_newline (p ∷ r) then last_line r else p ∷ r

unfoldable pub add_to_first : Point → List (List Point) → List (List Point)
add_to_first p [] = (p ∷ []) ∷ []
add_to_first p (l ∷ ls) = (p ∷ l) ∷ ls

-- The text cut at its newlines, which are dropped.
unfoldable pub lines : List Point → List (List Point)
unfolding add_to_first
lines [] = [] ∷ []
lines (p ∷ r) = if is_newline p then [] ∷ lines r else add_to_first p (lines r)

unfoldable pub spaces_of : List Point → ℕ
spaces_of [] = 0
spaces_of (p ∷ r) = (if p.codepoint == space then 1 else 0) + spaces_of r

module _ (charwidth : ℕ → ℕ) where
  unfoldable pub width_of : List Point → ℕ
  width_of [] = 0
  width_of (p ∷ r) = charwidth p.codepoint + width_of r

  unfoldable pub widest_line : List (List Point) → ℕ
  widest_line [] = 0
  widest_line (l ∷ ls) = max (width_of l) (widest_line ls)

  unfoldable pub widest : List Point → ℕ
  unfolding widest_line lines
  widest r = widest_line (lines r)

  -- No measure of the text, nor a part of one, leaves a size_t.
  abbrev pub Fits : List Point → Type 0
  Fits r = (bytes_of r + newlines_of r + width_of r + spaces_of r) < 2 ^ 64

  -- The text's readings, as the record that the code keeps.
  unfoldable pub reading : List Point → DocState
  reading r = record {
    byte_count = record { count = bytes_of r };
    newline_count = record { count = newlines_of r };
    first_width = record { wrapped = any_newline r; width = width_of (first_line r) };
    last_width = record { wrapped = any_newline r; width = width_of (last_line r) };
    max_width = record {
      first_width = record { wrapped = any_newline r; width = width_of (first_line r) };
      last_width = record { wrapped = any_newline r; width = width_of (last_line r) };
      width = widest r;
    };
    last_ws_count = record { wrapped = any_newline r; count = spaces_of (last_line r) };
  }
