-- ===== src/Optimizer/Scope/Tests.antt =====
-- A frame from term 9 on, inside frames from 5, 2 and 0 on.
use wake.Prelude.{ℕ, [], ◌∷◌, ◌++◌, some, ◌≡◌, refl, arith}
use wake.Optimizer.Scope.{Scoping, scope_arg}
use wake.Optimizer.Scope.Resolves.{resolve, resolve_code, scope_arg-resolve}

scope_arg_runs :
    scope_arg 9 (5 ∷ 2 ∷ 0 ∷ []) (6 ∷ []) [] 3
    ≡ some (record { arg = 65538; escapes = 6 ∷ 3 ∷ []; codes = 65537 ∷ [] })
unfolding scope_arg
scope_arg_runs = refl

scope_arg-resolve_example :
    (r : Scoping) × (code : ℕ) × (scope_arg 9 (5 ∷ 2 ∷ 0 ∷ []) (6 ∷ []) (4 ∷ []) 3 ≡ some r)
    × (resolve (9 ∷ 5 ∷ 2 ∷ 0 ∷ []) r.arg ≡ some 3)
    × (r.codes ≡ (4 ∷ []) ++ code ∷ [])
    × (resolve_code 9 r.escapes code ≡ some 3)
scope_arg-resolve_example =
    scope_arg-resolve 9 3 (5 ∷ 2 ∷ 0 ∷ []) (6 ∷ []) (4 ∷ []) refl (omega arith) (omega arith)
      (omega arith)
