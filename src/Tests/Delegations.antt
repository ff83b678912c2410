-- ===== src/Tests/Delegations.antt =====
-- Token exchange on the example tables.
use shieldgate.Base.{
  ◌≡◌, refl, codes, ◌∷◌, text_eq, fields, fields_from, trim_space, trim_left, is_space, to_lower,
  lower_rune, trim_prefix, join_space,
}
use shieldgate.Model.{ok, TokenExchangeResponse, type_access_token}
use shieldgate.Scope.{parse_scope, contains, all_in, scope_is_subset, validate_scope_for_client}
use shieldgate.Effect.{
  Action, pure, throw, or_fail, lift, attempt, wrap, ◌>>=◌, clock, fresh_uuid, outside, statement,
  emit,
}
use shieldgate.Repo.Statements.{find, write}
use shieldgate.Repo.AccessToken
use shieldgate.Auth.Claims.{has_type}
use shieldgate.Auth.Introspect.{validate_access_token}
use shieldgate.Device.TokenExchange.{exchanged_scope, issue_delegated, exchange_token}
use shieldgate.Device.Delegation.{Delegated, exchange_token-Delegated}
use shieldgate.Tests.Fixture.{server, world, client}

abbrev exchange : Action TokenExchangeResponse
exchange = exchange_token server 65 client (codes "jwt") type_access_token (codes "email")

abbrev delegated : TokenExchangeResponse
delegated = record {
  access_token = 4 ∷ codes "access";
  issued_token_type = type_access_token;
  token_type = codes "Bearer";
  expires_in = 3600;
  scope = codes "email";
}

exchanged : exchange world ≡ (ok delegated, (exchange world).1)
unfolding exchange_token exchanged_scope issue_delegated validate_access_token AccessToken.create
    AccessToken.get_by_token find write has_type to_lower lower_rune trim_prefix
    validate_scope_for_client scope_is_subset all_in contains parse_scope fields fields_from
    trim_space trim_left is_space text_eq pure throw or_fail lift attempt wrap ◌>>=◌ clock
    fresh_uuid outside statement emit join_space
exchanged = refl

delegation_example : Delegated server 65 client (codes "jwt") world delegated (exchange world).1
delegation_example =
    exchange_token-Delegated server 65 client (codes "jwt") type_access_token (codes "email") world
      exchanged
