-- ===== src/Tests/Checks.antt =====
-- Introspection, validation and UserInfo on the example tables.
use shieldgate.Base.{
  Any, ◌≡◌, ◌⊎◌, refl, true, some, codes, text_eq, fields, fields_from, to_lower, lower_rune,
  trim_prefix,
}
use shieldgate.Model.{Uuid, ok, User, UserInfo, IntrospectionResponse, JwtClaims}
use shieldgate.Scope.{parse_scope, contains, scope_contains, scope_openid}
use shieldgate.Effect.{
  Action, World, pure, throw, or_fail, attempt, wrap, ◌>>=◌, outside, statement,
}
use shieldgate.Repo.Statements.{find}
use shieldgate.Repo.Outcomes.{seen}
use shieldgate.Repo.AccessToken
use shieldgate.Repo.Accounts.{get_user, is_user}
use shieldgate.Auth.Claims.{user_claims_for_scope, has_type}
use shieldgate.Auth.Introspect.{inactive, introspect_token, validate_access_token, get_user_info}
use shieldgate.Auth.TokenChecks.{
  Described, Validated, introspect_token_lem, validate-Validated, get_user_info_lem,
}
use shieldgate.Tests.Fixture.{server, world, jwt_claims, user}

introspect_example :
    ((introspect_token server 65 (codes "jwt") world).0 ≡ ok inactive)
    ⊎ ((response : IntrospectionResponse) × ((introspect_token server 65 (codes "jwt") world).0
          ≡ ok response)
        × Described server 65 (codes "jwt") world response)
introspect_example = introspect_token_lem server 65 (codes "jwt") world

abbrev validate : Action JwtClaims
validate = validate_access_token server 65 (codes "jwt")

validated : validate world ≡ (ok jwt_claims, (validate world).1)
unfolding validate_access_token AccessToken.get_by_token find has_type to_lower lower_rune
    trim_prefix text_eq pure throw or_fail attempt wrap ◌>>=◌ outside statement
validated = refl

validated_example : Validated server 65 (codes "jwt") (validate world).1 jwt_claims
validated_example = validate-Validated server 65 (codes "jwt") world validated

abbrev info : UserInfo
info = user_claims_for_scope server user (codes "openid email")

read :
    get_user_info server 65 (codes "jwt") world
    ≡ (ok info, (get_user_info server 65 (codes "jwt") world).1)
unfolding get_user_info validate_access_token AccessToken.get_by_token get_user find has_type
    to_lower lower_rune trim_prefix scope_contains contains parse_scope fields fields_from text_eq
    pure throw or_fail attempt wrap ◌>>=◌ outside statement
read = refl

user_info_example :
    (claims : JwtClaims) × (row : User) × (v : World) × (validate_access_token server 65
        (codes "jwt")
        world
      ≡ (ok claims, v))
    × Validated server 65 (codes "jwt") v claims
    × Any (λ r. r ≡ row) (seen server v).users
    × (scope_contains claims.scope scope_openid ≡ true)
    × ((id : Uuid) × (server.uuid_parse claims.user_id ≡ some id) × (is_user 65 id row ≡ true))
    × (info ≡ user_claims_for_scope server row claims.scope)
user_info_example = get_user_info_lem server 65 (codes "jwt") world read
