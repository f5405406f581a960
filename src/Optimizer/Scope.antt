-- ===== src/Optimizer/Scope.antt =====
-- The scope pass of src/optimizer/scope.cpp, with the arguments of src/optimizer/ssa.h that it makes: an
-- argument names a frame, counted from the innermost one, and an offset in it. A frame is known by its
-- start, and the frames around the first one by the list of theirs; hashes are left out.
pub mod Words
pub mod Resolves
pub mod Tests
use Prim.Native.Nat.{bit_or}
use wake.Prelude.{
  ℕ, zero, suc, ◌+◌, ◌-◌, ◌*◌, ◌/◌, ◌%◌, ◌^◌, List, [], ◌∷◌, ◌++◌, Option, none, some, Bool, true,
  false, length, ltb, ◌==◌, if◌then◌else◌,
}

-- arg & 65535 and arg >> 16
abbrev pub arg_depth : ℕ → ℕ
arg_depth arg = arg % 2 ^ 16

abbrev pub arg_offset : ℕ → ℕ
arg_offset arg = arg / 2 ^ 16

abbrev pub make_arg : ℕ → ℕ → ℕ
make_arg depth offset = bit_or (offset * 2 ^ 16 % 2 ^ 64) depth

-- The position of an escape, the end of the list if it is new.
abbrev pub find_escape : ℕ → List ℕ → ℕ
find_escape input [] = 0
find_escape input (x ∷ escapes) = if x == input then 0 else suc (find_escape input escapes)

abbrev pub add_escape : ℕ → List ℕ → List ℕ
add_escape input escapes =
    if find_escape input escapes == length escapes then escapes ++ input ∷ [] else escapes

-- The loop over the frames around: the number of steps and the start of the frame, where there is one.
abbrev pub find_frame : ℕ → ℕ → List ℕ → Option (ℕ × ℕ)
find_frame input depth [] = none
find_frame input depth (start ∷ outer) =
    if ltb input start then find_frame input (suc depth) outer else some (suc depth, start)

-- What scope_arg returns, and what it leaves in the frame.
pub record Scoping : Type 0 where
  pub arg : ℕ
  pub escapes : List ℕ
  pub codes : List ℕ

unfoldable pub scope_arg : ℕ → List ℕ → List ℕ → List ℕ → ℕ → Option Scoping
scope_arg start outer escapes codes input =
    if ltb input start
    then elim (find_frame input 0 outer) [
      | none ↦ none
      | some top ↦ some (record {
        arg = make_arg top.0 (input - top.1);
        escapes = add_escape input escapes;
        codes = codes ++ make_arg 1 (find_escape input escapes) ∷ [];
      })
    ]
    else some (record {
      arg = make_arg 0 (input - start);
      escapes = escapes;
      codes = codes ++ make_arg 0 (input - start) ∷ [];
    })
