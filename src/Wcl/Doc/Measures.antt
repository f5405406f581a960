-- ===== src/Wcl/Doc/Measures.antt =====
-- `doc_state::operator+` on the readings of two texts is the reading of the texts put together.
use wake.Prelude.{
  ℕ, ◌+◌, ◌≤◌, max, List, [], ◌∷◌, ◌++◌, false, ◌||◌, if◌then◌else◌, ◌≡◌, refl, arith,
}
use wake.Wcl.Doc.State.{
  add_size, newline, doc_state_ops, first_width_plus, last_width_plus, max_width_plus,
  last_ws_count_plus,
}
use wake.Wcl.Doc.Text.{
  Point, is_newline, bytes_of, newlines_of, any_newline, first_line, last_line, lines, spaces_of,
  width_of, widest_line, widest, Fits, reading,
}

bytes_of-append : (xs ys : List Point) → bytes_of (xs ++ ys) ≡ bytes_of xs + bytes_of ys
unfolding bytes_of
bytes_of-append [] ys = omega arith
bytes_of-append (p ∷ xs) ys = omega (arith, bytes_of-append xs ys)

newlines_of-append : (xs ys : List Point) → newlines_of (xs ++ ys) ≡ newlines_of xs + newlines_of ys
unfolding newlines_of
newlines_of-append [] ys = omega arith
newlines_of-append (p ∷ xs) ys = omega (arith, newlines_of-append xs ys)

spaces_of-append : (xs ys : List Point) → spaces_of (xs ++ ys) ≡ spaces_of xs + spaces_of ys
unfolding spaces_of
spaces_of-append [] ys = omega arith
spaces_of-append (p ∷ xs) ys = omega (arith, spaces_of-append xs ys)

any_newline-append :
    (xs ys : List Point) → any_newline (xs ++ ys) ≡ (any_newline xs || any_newline ys)
unfolding any_newline
any_newline-append [] ys = refl
any_newline-append (p ∷ xs) ys = ground (arith, any_newline-append xs ys)

first_line-append :
    (xs ys : List Point)
    → first_line (xs ++ ys)
      ≡ (if any_newline xs then first_line xs else first_line xs ++ first_line ys)
unfolding first_line any_newline
first_line-append [] ys = refl
first_line-append (p ∷ xs) ys = ground (arith, first_line-append xs ys)

last_line_flat : (ys : List Point) → any_newline ys ≡ false → last_line ys ≡ ys
unfolding last_line any_newline
last_line_flat [] h = refl
last_line_flat (p ∷ ys) h = ground arith

last_line-append :
    (xs ys : List Point)
    → last_line (xs ++ ys) ≡ (if any_newline ys then last_line ys else last_line xs ++ ys)
unfolding last_line any_newline
last_line-append [] ys = ground (arith, last_line_flat ys)
last_line-append (p ∷ xs) ys = ground (arith, last_line-append xs ys, any_newline-append xs ys)

spaces_last_le : (r : List Point) → spaces_of (last_line r) ≤ spaces_of r
unfolding spaces_of last_line any_newline
spaces_last_le [] = omega arith
spaces_last_le (p ∷ r) = ground (arith, spaces_last_le r)

later_lines : List Point → List (List Point)
later_lines [] = []
later_lines (p ∷ r) = if is_newline p then first_line r ∷ later_lines r else later_lines r

lines-eq-first_line : (r : List Point) → lines r ≡ first_line r ∷ later_lines r
unfolding lines first_line later_lines
lines-eq-first_line [] = refl
lines-eq-first_line (p ∷ r) = ground (arith, lines-eq-first_line r)

module _ (charwidth : ℕ → ℕ) where
  abbrev W : List Point → ℕ
  W = width_of charwidth

  width_of-append : (xs ys : List Point) → W (xs ++ ys) ≡ W xs + W ys
  unfolding width_of
  width_of-append [] ys = omega arith
  width_of-append (p ∷ xs) ys = omega (arith, width_of-append xs ys)

  width_first_le : (r : List Point) → W (first_line r) ≤ W r
  unfolding width_of first_line
  width_first_le [] = omega arith
  width_first_le (p ∷ r) = ground (arith, width_first_le r)

  width_last_le : (r : List Point) → W (last_line r) ≤ W r
  unfolding width_of last_line any_newline
  width_last_le [] = omega arith
  width_last_le (p ∷ r) = ground (arith, width_last_le r)

  width_last_flat : (r : List Point) → any_newline r ≡ false → W (last_line r) ≡ W (first_line r)
  unfolding width_of last_line first_line any_newline
  width_last_flat [] h = refl
  width_last_flat (p ∷ r) h = ground (arith, width_last_flat r, last_line_flat r)

  widest_later : List Point → ℕ
  widest_later [] = 0
  widest_later (p ∷ r) =
      let rest = widest_later r in if is_newline p then max (W (first_line r)) rest else rest

  widest_later_flat : (r : List Point) → any_newline r ≡ false → widest_later r ≡ 0
  unfolding widest_later any_newline
  widest_later_flat [] h = refl
  widest_later_flat (p ∷ r) h = ground (arith, widest_later_flat r)

  widest_line_later : (r : List Point) → widest_line charwidth (later_lines r) ≡ widest_later r
  unfolding widest_line later_lines widest_later
  widest_line_later [] = refl
  widest_line_later (p ∷ r) = ground (arith, widest_line_later r)

  widest-eq-max : (r : List Point) → widest charwidth r ≡ max (W (first_line r)) (widest_later r)
  unfolding widest
  widest-eq-max r = rw (lines-eq-first_line r) (ground (arith, widest_line_later r))

  W_first-append :
      (xs ys : List Point)
      → W (first_line (xs ++ ys))
        ≡ (if any_newline xs then W (first_line xs) else W (first_line xs) + W (first_line ys))
  W_first-append xs ys =
      ground (arith, first_line-append xs ys, width_of-append (first_line xs) (first_line ys))

  W_last-append :
      (xs ys : List Point)
      → W (last_line (xs ++ ys))
        ≡ (if any_newline ys then W (last_line ys) else W (last_line xs) + W (last_line ys))
  W_last-append xs ys =
      ground (arith, last_line-append xs ys, width_of-append (last_line xs) ys, last_line_flat ys)

  widest_later-append :
      (xs ys : List Point)
      → widest_later (xs ++ ys) ≡ (
          if any_newline xs
          then max (widest_later xs) (max (W (last_line xs) + W (first_line ys)) (widest_later ys))
          else widest_later ys)
  unfolding widest_later any_newline last_line
  widest_later-append [] ys = refl
  widest_later-append (p ∷ xs) ys = ground (
    arith,
    widest_later-append xs ys,
    W_first-append xs ys,
    width_last_flat xs,
    widest_later_flat xs,
  )

  widest-append :
      (xs ys : List Point)
      → widest charwidth (xs ++ ys)
        ≡ max
            (max (widest charwidth xs) (widest charwidth ys))
            (W (last_line xs) + W (first_line ys))
  widest-append xs ys = ground (
    arith,
    widest-eq-max xs,
    widest-eq-max ys,
    widest-eq-max (xs ++ ys),
    W_first-append xs ys,
    widest_later-append xs ys,
    width_last_flat xs,
    widest_later_flat xs,
  )

  pub Fits-append :
      (xs ys : List Point) → Fits charwidth (xs ++ ys) → Fits charwidth xs × Fits charwidth ys
  Fits-append xs ys h = omega (
    arith,
    bytes_of-append xs ys,
    newlines_of-append xs ys,
    width_of-append xs ys,
    spaces_of-append xs ys,
  )

  first_part :
      (xs ys : List Point)
      → Fits charwidth (xs ++ ys)
      → first_width_plus (reading charwidth xs).first_width (reading charwidth ys).first_width
        ≡ (reading charwidth (xs ++ ys)).first_width
  unfolding reading
  first_part xs ys h = ground (
    arith,
    any_newline-append xs ys,
    W_first-append xs ys,
    width_of-append xs ys,
    width_first_le xs,
    width_first_le ys,
  )

  last_part :
      (xs ys : List Point)
      → Fits charwidth (xs ++ ys)
      → last_width_plus (reading charwidth xs).last_width (reading charwidth ys).last_width
        ≡ (reading charwidth (xs ++ ys)).last_width
  unfolding reading
  last_part xs ys h = ground (
    arith,
    any_newline-append xs ys,
    W_last-append xs ys,
    width_of-append xs ys,
    width_last_le xs,
    width_last_le ys,
  )

  max_part :
      (xs ys : List Point)
      → Fits charwidth (xs ++ ys)
      → max_width_plus (reading charwidth xs).max_width (reading charwidth ys).max_width
        ≡ (reading charwidth (xs ++ ys)).max_width
  unfolding reading
  max_part xs ys h = λ i. record {
    first_width = first_part xs ys h i;
    last_width = last_part xs ys h i;
    width = merged i;
  }
    where
      merged :
          max
            (max (widest charwidth xs) (widest charwidth ys))
            (add_size (W (last_line xs)) (W (first_line ys)))
          ≡ widest charwidth (xs ++ ys)
      merged =
          omega
            (arith, widest-append xs ys, width_of-append xs ys, width_last_le xs, width_first_le ys)

  spaces_part :
      (xs ys : List Point)
      → Fits charwidth (xs ++ ys)
      → last_ws_count_plus (reading charwidth xs).last_ws_count (reading charwidth ys).last_ws_count
        ≡ (reading charwidth (xs ++ ys)).last_ws_count
  unfolding reading
  spaces_part xs ys h = ground (
    arith,
    any_newline-append xs ys,
    last_line-append xs ys,
    last_line_flat ys,
    spaces_of-append (last_line xs) ys,
    spaces_of-append xs ys,
    spaces_last_le xs,
    spaces_last_le ys,
  )

  -- The sum of the measures of two texts is the measures of the texts put together, as long as the
  -- whole text's byte count, newline count, width and space count together stay below 2 ^ 64.
  pub reading-append :
      (xs ys : List Point)
      → Fits charwidth (xs ++ ys)
      → (doc_state_ops charwidth).plus (reading charwidth xs) (reading charwidth ys)
        ≡ reading charwidth (xs ++ ys)
  unfolding reading
  reading-append xs ys h = λ i. record {
    byte_count = record { count = bytes_part i };
    newline_count = record { count = newlines_part i };
    first_width = first_part xs ys h i;
    last_width = last_part xs ys h i;
    max_width = max_part xs ys h i;
    last_ws_count = spaces_part xs ys h i;
  }
    where
      bytes_part : add_size (bytes_of xs) (bytes_of ys) ≡ bytes_of (xs ++ ys)
      bytes_part = omega (arith, bytes_of-append xs ys)

      newlines_part : add_size (newlines_of xs) (newlines_of ys) ≡ newlines_of (xs ++ ys)
      newlines_part = omega (arith, newlines_of-append xs ys)

  -- The measures of one code point are those of the text of that code point alone.
  pub inject-reading :
      (p : Point)
      → charwidth newline ≡ 0
      → (doc_state_ops charwidth).inject p.size p.codepoint ≡ reading charwidth (p ∷ [])
  unfolding reading bytes_of newlines_of any_newline first_line last_line lines spaces_of width_of
      widest
  inject-reading p h = ground arith

  pub identity-reading : (doc_state_ops charwidth).identity ≡ reading charwidth []
  unfolding reading bytes_of newlines_of any_newline first_line last_line lines spaces_of width_of
      widest
  identity-reading = refl
