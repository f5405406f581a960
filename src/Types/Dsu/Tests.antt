-- ===== src/Types/Dsu/Tests.antt =====
-- Three sets, of which two are joined twice over.
use wake.Prelude.{ℕ, none, some, ◌≡◌, refl, arith}
use wake.Types.Dsu.{Store, make, get, union_consume, set_parent}
use wake.Types.Dsu.Chains.{Chain}
use wake.Types.Dsu.Compress.{Keeps, get-root}
use wake.Types.Dsu.Union.{Joined, union_consume-Joined}

abbrev empty : Store ℕ
empty = record { parent = λ y. none; payload = λ y. none; next = 0 }

abbrev five : Store ℕ
five = (make ℕ 14 (make ℕ 13 (make ℕ 12 (make ℕ 11 (make ℕ 10 empty).0).0).0).0).0

-- A way 0, 1, 2, 3 and one root beside it.
abbrev linked : Store ℕ
linked = set_parent ℕ 0 (some 1) (set_parent ℕ 1 (some 2) (set_parent ℕ 2 (some 3) five))

get_runs : (get ℕ 3 0 linked).1 ≡ some 13
unfolding get
get_runs = refl

union_runs : (get ℕ 3 4 (union_consume ℕ 3 0 4 linked)).1 ≡ some 13
unfolding get union_consume
union_runs = refl

way : Chain linked.parent 3 0 3
way = (1, refl, (2, refl, (3, refl, (refl, refl))))

get-root_example :
    ((get ℕ 3 0 linked).1 ≡ some 13)
    × Keeps linked.parent (get ℕ 3 0 linked).0.parent
    × ((y : ℕ) → (get ℕ 3 0 linked).0.payload y ≡ linked.payload y)
get-root_example = get-root ℕ 3 0 3 3 linked (omega arith) way

union_consume-Joined_example :
    Joined ℕ linked.parent linked.payload 3 4 (union_consume ℕ 3 0 4 linked)
union_consume-Joined_example =
    union_consume-Joined ℕ 3 0 4 3 0 3 4 linked (omega arith) (omega arith) way (refl, refl)
