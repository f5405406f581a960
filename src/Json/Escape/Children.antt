-- ===== src/Json/Escape/Children.antt =====
-- `JAST::get_opt` on a document that `JAST::add` has grown.
use wake.Prelude.{
  Bytes, Bool-cases, inl, inr, Option, none, some, bytes_eq, if◌then◌else◌, ◌≡◌, refl,
}
use wake.Json.Ast.{SymbolJson, object, Jast, jast, JChildren, no_children, child}
use wake.Json.Escape.{find_child, get_opt, emplace_back, add}

-- The first answer, or the second where there is none.
abbrev pub or_else : Option Jast → Option Jast → Option Jast
or_else none second = second
or_else (some j) second = some j

find_child-emplace_back :
    (key k : Bytes) (v : Jast) (c : JChildren)
    → find_child key (emplace_back c k v)
      ≡ or_else (find_child key c) (if bytes_eq k key then some v else none)
unfolding find_child emplace_back
find_child-emplace_back key k v no_children = refl
find_child-emplace_back key k v (child k' v' rest) = elim (Bool-cases (bytes_eq k' key)) [
  | inl e ↦ rw e refl
  | inr e ↦ rw e (find_child-emplace_back key k v rest)
]

-- Behind an `add` to an object, `get_opt` finds what it found before, and where it found nothing the
-- new child if that has the key: of several children of one key the first counts.
pub get_opt-add :
    (key k : Bytes) (kind : SymbolJson) (value text : Bytes) (c : JChildren)
    → get_opt key (add k kind value (jast object text c))
      ≡ or_else
          (get_opt key (jast object text c))
          (if bytes_eq k key then some (jast kind value no_children) else none)
unfolding get_opt add
get_opt-add key k kind value text c = find_child-emplace_back key k (jast kind value no_children) c
