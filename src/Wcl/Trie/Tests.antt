-- ===== src/Wcl/Trie/Tests.antt =====
-- Runs of the trie with numbers for keys.
use wake.Prelude.{ℕ, arith, [], ◌∷◌, ◌==◌, ==_refl, ◌≡◌, refl, some, none}
use wake.Wcl.Trie.Lookup.{find-move_emplace}
use wake.Wcl.Trie.Bounds.{IsInRange, move_emplace-IsInRange}
use wake.Wcl.Trie.{Trie, move_emplace, find, find_max}

abbrev bare : Trie ℕ ℕ
bare = record { nodes = []; starts = []; empty_seq = none }

abbrev grown : Trie ℕ ℕ
grown =
    move_emplace ℕ ℕ ◌==◌ (1 ∷ 2 ∷ []) 12
      (move_emplace ℕ ℕ ◌==◌ (1 ∷ []) 10 (move_emplace ℕ ℕ ◌==◌ (1 ∷ 3 ∷ 4 ∷ []) 134 bare))

find_runs :
    (find ℕ ℕ ◌==◌ grown (1 ∷ 2 ∷ []) ≡ some 12)
    × (find ℕ ℕ ◌==◌ grown (1 ∷ 3 ∷ []) ≡ none)
    × (find_max ℕ ℕ ◌==◌ grown (1 ∷ 3 ∷ 5 ∷ []) ≡ (some 10, 3 ∷ 5 ∷ []))
unfolding find move_emplace find_max
find_runs = (refl, refl, refl)

abbrev single : Trie ℕ ℕ
single = record {
  nodes = record { child_indexes = []; key = 1; value = some 5 } ∷ [];
  starts = 0 ∷ [];
  empty_seq = none;
}

single-IsInRange : IsInRange ℕ ℕ ◌==◌ single
single-IsInRange = record { starts_bounded = omega arith; children_bounded = (tt, tt) }

move_emplace-IsInRange_example :
    IsInRange ℕ ℕ ◌==◌ (move_emplace ℕ ℕ ◌==◌ (1 ∷ 2 ∷ 3 ∷ []) 7 single)
move_emplace-IsInRange_example =
    move_emplace-IsInRange ℕ ℕ ◌==◌ (1 ∷ 2 ∷ 3 ∷ []) 7 single single-IsInRange

find-move_emplace_example :
    find ℕ ℕ ◌==◌ (move_emplace ℕ ℕ ◌==◌ (1 ∷ 2 ∷ 3 ∷ []) 7 single) (1 ∷ 2 ∷ 3 ∷ []) ≡ some 7
find-move_emplace_example =
    find-move_emplace ℕ ℕ ◌==◌ ==_refl (1 ∷ 2 ∷ 3 ∷ []) 7 single single-IsInRange
