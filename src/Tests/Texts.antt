-- ===== src/Tests/Texts.antt =====
-- Scopes: the theorems on texts at concrete ones.
use shieldgate.Base.{
  ◌≡◌, ◌↔◌, ◌⊎◌, true, false, Text, codes, [], ◌∷◌, is_cons, trim_space, join_space,
}
use shieldgate.Model.{ok, err, invalid_scope}
use shieldgate.Scope.{parse_scope, scope_is_subset, validate_scope_for_client, union_scopes}
use shieldgate.Scope.Subset.{Has, Within, scope_is_subset_iff}
use shieldgate.Scope.Union.{Distinct, union_scopes_lem}
use shieldgate.Scope.Words.{validate_scope_for_client_lem}
use shieldgate.Tests.Fixture.{client}

subset_example :
    (scope_is_subset (codes "email") (codes "openid email") ≡ true)
    ↔ Within (parse_scope (codes "email")) (parse_scope (codes "openid email"))
subset_example = scope_is_subset_iff (codes "email") (codes "openid email")

union_example :
    Distinct (union_scopes (codes "a" ∷ codes "b" ∷ []) (codes "b" ∷ codes "c" ∷ []))
    × ((t : Text)
        → Has t (union_scopes (codes "a" ∷ codes "b" ∷ []) (codes "b" ∷ codes "c" ∷ []))
          ↔ (Has t (codes "a" ∷ codes "b" ∷ []) ⊎ Has t (codes "b" ∷ codes "c" ∷ [])))
union_example = union_scopes_lem (codes "a" ∷ codes "b" ∷ []) (codes "b" ∷ codes "c" ∷ [])

registered_example :
    let registered = join_space client.scopes in
    let fits = Within (parse_scope (codes "phone")) (parse_scope registered) in
    let answer = validate_scope_for_client client (codes "phone") in
    let blank = is_cons (trim_space (codes "phone")) ≡ false in
    (blank × (answer ≡ ok registered))
    ⊎ ((¬ blank) × fits × (answer ≡ ok (join_space (parse_scope (codes "phone")))))
    ⊎ ((¬ blank) × (¬ fits) × (answer ≡ err invalid_scope))
registered_example = validate_scope_for_client_lem client (codes "phone")
