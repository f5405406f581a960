-- ===== src/Util/Shell.antt =====
-- `not_special` and `shell_escape` of src/util/shell.cpp. The argument is a C string, the bytes
-- before its terminator, which are not 0.
pub mod Quoting
pub mod Tests
use wake.Prelude.{
  ℕ, List, [], ◌∷◌, ◌++◌, Bytes, codes, Bool, true, false, ◌==◌, ◌||◌, ◌&&◌, if◌then◌else◌, leb,
}

-- The byte is one of those before `return true`.
is_one_of : ℕ → Bytes → Bool
is_one_of c [] = false
is_one_of c (d ∷ rest) = c == d || is_one_of c rest

unfoldable pub not_special : ℕ → Bool
unfolding is_one_of
not_special c =
    is_one_of c (codes "ABCDEFGHIJKLMNOPQRSTUVWXYZ")
    || is_one_of c (codes "abcdefghijklmnopqrstuvwxyz")
    || is_one_of c (codes "0123456789")
    || is_one_of c (codes ":/.,+-_%@^=")

-- The loop that stops at a special byte, which may be the terminator: whether it reached the end.
unfoldable pub all_plain : Bytes → Bool
unfolding not_special
all_plain [] = true
all_plain (c ∷ x) = if not_special c then all_plain x else false

abbrev pub quote : ℕ
quote = b'\''

-- The loop over the quotes of the text, and the write of what is behind the last.
unfoldable pub quote_each : Bytes → Bytes
quote_each [] = []
quote_each (c ∷ x) = if c == quote then codes "'\\''" ++ quote_each x else c ∷ quote_each x

unfoldable pub shell_escape : Bytes → Bytes
unfolding all_plain quote_each
shell_escape [] = codes "''"
shell_escape (c ∷ x) =
    if all_plain (c ∷ x) then c ∷ x else quote ∷ (quote_each (c ∷ x) ++ quote ∷ [])
