-- ===== src/Tests/Codes.antt =====
-- The authorization code grant on the example tables.
use shieldgate.Base.{
  ◌≡◌, refl, Text, codes, [], ◌∷◌, arith, text_eq, fields, fields_from, select_rows, update_rows,
  delete_rows,
}
use shieldgate.Model.{ok, err, invalid_grant, TokenResponse, is_expired}
use shieldgate.Scope.{parse_scope, contains, scope_contains}
use shieldgate.Effect.{
  Action, pure, throw, or_fail, lift, attempt, wrap, ◌>>=◌, clock, fresh_uuid, outside,
  random_token, statement, emit,
}
use shieldgate.Repo.Statements.{find, write, change}
use shieldgate.Repo.AuthCode
use shieldgate.Repo.AuthCode.{
  Consumed, already_used, consume, updated_or_reread, existing_or_missing,
}
use shieldgate.Repo.AccessToken
use shieldgate.Repo.RefreshToken
use shieldgate.Repo.Tenancy.{holdings}
use shieldgate.Repo.Accounts.{get_client, get_user}
use shieldgate.Auth.Claims.{
  validate_pkce, generate_jwt, generate_id_token, id_token_claims, user_claims_for_scope,
}
use shieldgate.Auth.Issue.{issue_tokens, store_access_token, store_refresh_token, issue_id_token}
use shieldgate.Auth.Exchange.{exchange_authorization_code, on_consumed, redeem, check_pkce}
use shieldgate.Auth.Refresh.{refresh_tokens}
use shieldgate.Auth.Revoke.{revoke_token}
use shieldgate.Auth.CodeGrant.{Redeemed, exchange-Redeemed}
use shieldgate.Auth.SingleUse.{exchange-Spent, exchange_single_use}
use shieldgate.Auth.FamilyRevocation.{FamilyGone, exchange_replay}
use shieldgate.Auth.Tenancy.{tenant_isolation}
use shieldgate.Tests.Fixture.{server, world, used_code}

abbrev redirect : Text
redirect = codes "https://app/cb"

abbrev exchange : Text → Action TokenResponse
exchange code = exchange_authorization_code server 65 code (codes "B") redirect (codes "v")

abbrev code_tokens : TokenResponse
code_tokens = record {
  access_token = 6 ∷ codes "access";
  token_type = codes "Bearer";
  expires_in = 3600;
  refresh_token = 11 ∷ codes "token";
  id_token = 18 ∷ codes "id";
  scope = codes "openid";
}

exchanged : exchange (codes "code") world ≡ (ok code_tokens, (exchange (codes "code") world).1)
unfolding exchange_authorization_code on_consumed redeem check_pkce consume updated_or_reread change
    validate_pkce issue_tokens store_access_token store_refresh_token issue_id_token generate_jwt
    generate_id_token id_token_claims user_claims_for_scope get_client get_user find write text_eq
    select_rows update_rows delete_rows is_expired parse_scope contains scope_contains fields
    fields_from pure throw or_fail lift attempt wrap ◌>>=◌ clock fresh_uuid outside random_token
    statement emit AccessToken.create RefreshToken.create
exchanged = refl

exchange_example :
    Redeemed server 65
      (codes "code")
      (codes "B")
      redirect
      (codes "v")
      world
      (exchange (codes "code") world).1
      code_tokens
exchange_example =
    exchange-Redeemed server 65 (codes "code") (codes "B") redirect (codes "v") world exchanged

single_use_example :
    (exchange_authorization_code server 65
      (codes "code")
      (codes "Z")
      []
      (codes "v")
      (exchange (codes "code") world).1).0
    ≡ err invalid_grant
single_use_example =
    exchange_single_use server 65 (codes "code") (record { at = λ n d h. h }) (codes "B") redirect
      (codes "v") (codes "Z") [] (codes "v") world exchanged

spent_example : (exchange (codes "used") world).0 ≡ err invalid_grant
unfolding text_eq
spent_example =
    exchange-Spent server 65 (codes "used") (codes "B") redirect (codes "v") world
      (refl, (refl, (refl, tt)))

reread :
    consume server 65 (codes "used") world
    ≡ (ok (already_used used_code), (consume server 65 (codes "used") world).1)
unfolding consume updated_or_reread existing_or_missing change find AuthCode.get_by_code text_eq
    select_rows update_rows pure throw or_fail attempt wrap ◌>>=◌ clock statement
reread = refl

replay_example :
    ((exchange (codes "used") world).0 ≡ err invalid_grant)
    × FamilyGone 65 75 (exchange (codes "used") world).1.db
replay_example =
    exchange_replay server (λ n. refl) 65 (codes "used") (codes "B") redirect (codes "v") used_code
      world (consume server 65 (codes "used") world).1 (record { at = λ n d h. h }) reread

isolation_example :
    let code_grant =
      exchange_authorization_code server 65 (codes "code") (codes "B") redirect (codes "v") world in
    let refresh_grant = refresh_tokens server 65 (codes "B") [] (codes "code") world in
    let revocation = revoke_token server 65 66 (codes "code") [] world in
    (holdings 64 code_grant.1.db ≡ holdings 64 world.db)
    × (holdings 64 refresh_grant.1.db ≡ holdings 64 world.db)
    × (holdings 64 revocation.1.db ≡ holdings 64 world.db)
isolation_example =
    tenant_isolation server 65 64 world (λ h. ground arith) (record { at = λ n d h. h })
      (codes "code") (codes "B") redirect (codes "v") [] [] 66
