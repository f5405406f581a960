-- ===== src/Json/Utf8/Tests.antt =====
-- Runs of the encoding of code points.
use wake.Prelude.{length, ◌++◌, [], ◌∷◌, true, false, some, none, ◌≡◌, refl}
use wake.Json.Utf8.{push_utf8, pop_utf8}
use wake.Json.Utf8.Runes.{pop_utf8-push_utf8}

-- An A, a small E with an acute accent, the sign of the euro and a Gothic letter; no surrogate is
-- written, no long form of a slash is read.
utf8_runs :
    (push_utf8 [] 0x41 ≡ (0x41 ∷ [], true))
    × (push_utf8 [] 0xe9 ≡ (0xc3 ∷ 0xa9 ∷ [], true))
    × (push_utf8 [] 0x20ac ≡ (0xe2 ∷ 0x82 ∷ 0xac ∷ [], true))
    × (push_utf8 [] 0x10348 ≡ (0xf0 ∷ 0x90 ∷ 0x8d ∷ 0x88 ∷ [], true))
    × (push_utf8 [] 0xd800 ≡ ([], false))
    × (pop_utf8 (0xe2 ∷ 0x82 ∷ 0xac ∷ 0x41 ∷ []) ≡ some (0x20ac, 3))
    × (pop_utf8 (0xf0 ∷ 0x90 ∷ 0x8d ∷ 0x88 ∷ []) ≡ some (0x10348, 4))
    × (pop_utf8 (0xc0 ∷ 0xaf ∷ []) ≡ none)
    × (pop_utf8 (0xed ∷ 0xa0 ∷ 0x80 ∷ []) ≡ some (0xd800, 3))
unfolding push_utf8 pop_utf8
utf8_runs = (refl, refl, refl, refl, refl, refl, refl, refl, refl)

gothic_written : (push_utf8 [] 0x10348).1 ≡ true
unfolding push_utf8
gothic_written = refl

pop_utf8-push_utf8_example :
    pop_utf8 ((push_utf8 [] 0x10348).0 ++ 0x41 ∷ [])
    ≡ some (0x10348, length (push_utf8 [] 0x10348).0)
pop_utf8-push_utf8_example = pop_utf8-push_utf8 0x10348 (0x41 ∷ []) gothic_written
