-- ===== src/Util/Shell/Quoting.antt =====
-- The words that a POSIX shell reads (XCU 2.2 and 2.3), as far as `shell_escape` needs them.
use wake.Prelude.{
  ℕ, [], ◌∷◌, Bytes, codes, Bool, true, Option, none, some, ◌==◌, ◌||◌, ◌&&◌, if◌then◌else◌, not,
}
use wake.Util.Shell.{is_one_of, quote}

-- Bytes that have a meaning to the shell outside of quotes, or may have one in places: the operators,
-- the blanks, the quotes, the expansions, the patterns, and `#`, `~`, `!`, `{`, `}`; `=` and `%` only
-- in other places than an argument.
unfoldable pub is_meta : ℕ → Bool
unfolding is_one_of
is_meta c = is_one_of c (codes "|&;<>()$`\\\"' \t\n*?[#~!{}") || c == 0

-- Where the reader stands.
pub data Mode : Type 0 where
  bare quoted escaped : Mode

-- The word that a shell reads from one text, with nothing for a byte outside of quotes that would
-- end the word or expand.
unfoldable pub read_word : Mode → Bytes → Option Bytes
unfolding is_meta
read_word bare [] = some []
read_word bare (c ∷ s) =
    let quoted_rest = read_word quoted s in
    let escaped_rest = read_word escaped s in
    let rest = read_word bare s in
    if c == quote
    then quoted_rest
    else if c == b'\\'
    then escaped_rest
    else if is_meta c
    then none
    else elim rest [ none ↦ none | some w ↦ some (c ∷ w) ]
read_word quoted [] = none
read_word quoted (c ∷ s) =
    let ended = read_word bare s in
    let rest = read_word quoted s in
    if c == quote then ended else elim rest [ none ↦ none | some w ↦ some (c ∷ w) ]
read_word escaped [] = none
read_word escaped (c ∷ s) =
    let rest = read_word bare s in elim rest [ none ↦ none | some w ↦ some (c ∷ w) ]

-- The word that a shell reads from a text that is one word. No text is no word: an empty word takes
-- quotes.
unfoldable pub read_one_word : Bytes → Option Bytes
unfolding read_word
read_one_word [] = none
read_one_word (c ∷ s) = read_word bare (c ∷ s)

-- A test that every listed byte passes is passed by a byte of the list.
every : (ℕ → Bool) → Bytes → Bool
every test [] = true
every test (c ∷ s) = test c && every test s

harmless : ℕ → Bool
unfolding is_meta
harmless c = not (c == quote) && not (c == b'\\') && not (is_meta c)
