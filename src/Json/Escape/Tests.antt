-- ===== src/Json/Escape/Tests.antt =====
-- Runs of the printing of documents.
use wake.Prelude.{◌≡◌, [], ◌∷◌, refl, codes, some}
use wake.Json.Ast.{integer, str, object, array, jast, no_children, child}
use wake.Json.Escape.{json_escape, print, get_opt, add}
use wake.Json.Escape.Children.{get_opt-add}

print_runs :
    (print (
        jast object [] (
          child
            (codes "a")
            (jast str (codes "x\"y") no_children)
            (child (codes "b") (jast array [] no_children) no_children)))
      ≡ codes "{\"a\":\"x\\\"y\",\"b\":[]}")
    × (json_escape (1 ∷ 31 ∷ []) ≡ codes "\\u0001\\u001f")
unfolding print json_escape
print_runs = (refl, refl)

get_opt-add_example :
    get_opt (codes "a") (add (codes "a") integer (codes "1") (jast object [] no_children))
    ≡ some (jast integer (codes "1") no_children)
unfolding get_opt
get_opt-add_example = get_opt-add (codes "a") (codes "a") integer (codes "1") [] no_children
