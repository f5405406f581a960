-- ===== src/Wcl/FilePath/Iterator.antt =====
-- `filepath_iterator`, `split_path` and `join` of src/wcl/filepath.h.
use wake.Prelude.{
  ℕ, zero, suc, ◌+◌, ◌-◌, List, [], ◌∷◌, ◌++◌, Bool, false, none, some, Bytes, length, drop, take,
  get_elem?, ◌==◌, if◌then◌else◌,
}

abbrev pub slash : ℕ
slash = b'/'

-- `start` and `final` of the iterator; its string is an argument.
pub record FilepathIterator : Type 0 where
  pub start : ℕ
  pub final : ℕ

-- final < str.size() && str[final] == '/'
unfoldable pub at_slash : Bytes → ℕ → Bool
at_slash str i = elim (get_elem? str i) [ none ↦ false | some c ↦ c == slash ]

-- The rounds of `while (final < str.size() && str[final] != '/')` over the rest of the path.
unfoldable pub run_length : Bytes → ℕ
run_length [] = 0
run_length (c ∷ rest) = if c == slash then 0 else suc (run_length rest)

unfoldable pub next : Bytes → FilepathIterator → FilepathIterator
unfolding at_slash run_length
next str it =
    let start = if at_slash str it.final then it.final + 1 else it.final in
    record { start = start; final = start + run_length (drop start str) }

-- The constructor with a position moves on at once.
unfoldable pub iterator_at : Bytes → ℕ → FilepathIterator
unfolding next
iterator_at str i = next str (record { start = i; final = i })

abbrev pub begin : Bytes → FilepathIterator
begin str = iterator_at str 0

abbrev pub end : Bytes → FilepathIterator
end str = iterator_at str (length str)

-- operator==
abbrev pub same_position : FilepathIterator → FilepathIterator → Bool
same_position a b = a.start == b.start

-- operator*
abbrev pub part : Bytes → FilepathIterator → Bytes
part str it = take (it.final - it.start) (drop it.start str)

-- The parts from an iterator on. An iterator that is not at the end moves on by one byte at least.
unfoldable pub parts_from : ℕ → Bytes → FilepathIterator → List Bytes
parts_from zero str it = []
parts_from (suc fuel) str it =
    let rest = parts_from fuel str (next str it) in
    if same_position it (end str) then [] else part str it ∷ rest

unfoldable pub split_path : Bytes → List Bytes
unfolding parts_from
split_path path = parts_from (length path) path (begin path)

-- The parts with `sep` between them.
unfoldable pub join : ℕ → List Bytes → Bytes
join sep [] = []
join sep (p ∷ []) = p
join sep (p ∷ q ∷ ps) = p ++ sep ∷ join sep (q ∷ ps)
