-- ===== src/Tests/Refreshes.antt =====
-- Refresh tokens and their revocation on the example tables.
use shieldgate.Base.{
  ◌≡◌, ◌≢◌, ◌⊎◌, refl, true, Text, codes, [], ◌∷◌, text_eq, fields, fields_from, select_rows,
  update_rows, delete_rows,
}
use shieldgate.Model.{ok, err, invalid_grant, TokenResponse, is_expired, is_revoked}
use shieldgate.Scope.{parse_scope, contains, scope_contains, all_in, scope_is_subset}
use shieldgate.Effect.{
  Action, pure, throw, or_fail, lift, attempt, wrap, ◌>>=◌, clock, fresh_uuid, outside,
  random_token, statement, emit,
}
use shieldgate.Repo.Statements.{find, write, change}
use shieldgate.Repo.AccessToken
use shieldgate.Repo.RefreshToken
use shieldgate.Repo.RefreshToken.{get_by_token}
use shieldgate.Repo.Accounts.{get_client, get_user}
use shieldgate.Auth.Claims.{
  no_context, generate_jwt, generate_id_token, id_token_claims, user_claims_for_scope,
}
use shieldgate.Auth.Issue.{issue_tokens, store_access_token, store_refresh_token, issue_id_token}
use shieldgate.Auth.Refresh.{
  narrowed_scope, confirm_rotation, issue_rotated, rotate, refresh_live, refresh_found,
  refresh_tokens,
}
use shieldgate.Auth.Revoke.{revoke_token}
use shieldgate.Auth.Issued.{Issued, issue_tokens-Issued}
use shieldgate.Auth.Rotation.{Rotated, refresh-Rotated}
use shieldgate.Auth.FamilyRevocation.{
  FamilyGone, refresh_replay, revoke_token_refresh, revoke_token_family-gone,
}
use shieldgate.Auth.Issue.{revoke_token_family}
use shieldgate.Tests.Fixture.{server, world, refresh_row, rotated_row, client}

abbrev refresh : Text → Action TokenResponse
refresh token = refresh_tokens server 65 (codes "B") (codes "email") token

abbrev new_tokens : TokenResponse
new_tokens = record {
  access_token = 7 ∷ codes "access";
  token_type = codes "Bearer";
  expires_in = 3600;
  refresh_token = 12 ∷ codes "token";
  id_token = [];
  scope = codes "email";
}

refreshed : refresh (codes "refresh") world ≡ (ok new_tokens, (refresh (codes "refresh") world).1)
unfolding refresh_tokens refresh_found refresh_live rotate issue_rotated confirm_rotation
    narrowed_scope RefreshToken.revoke RefreshToken.get_by_token change issue_tokens
    store_access_token store_refresh_token issue_id_token generate_jwt generate_id_token
    id_token_claims user_claims_for_scope get_client get_user find write text_eq select_rows
    update_rows delete_rows is_expired is_revoked parse_scope contains scope_contains
    scope_is_subset all_in fields fields_from pure throw or_fail lift attempt wrap ◌>>=◌ clock
    fresh_uuid outside random_token statement emit AccessToken.create RefreshToken.create
refreshed = refl

rotation_example :
    Rotated server 65
      (codes "B")
      (codes "email")
      (codes "refresh")
      world
      new_tokens
      (refresh (codes "refresh") world).1
rotation_example =
    refresh-Rotated server 65 (codes "B") (codes "email") (codes "refresh") world refreshed

-- Tokens for user 67, in family 70.
abbrev issue : Action TokenResponse
issue = issue_tokens server 65 client 67 (codes "email") 70 true true no_context

abbrev issued_tokens : TokenResponse
issued_tokens = record {
  access_token = 2 ∷ codes "access";
  token_type = codes "Bearer";
  expires_in = 3600;
  refresh_token = 7 ∷ codes "token";
  id_token = [];
  scope = codes "email";
}

were_issued : issue world ≡ (ok issued_tokens, (issue world).1)
unfolding issue_tokens store_access_token store_refresh_token issue_id_token generate_jwt
    generate_id_token id_token_claims user_claims_for_scope get_user find write text_eq parse_scope
    contains scope_contains fields fields_from pure throw or_fail attempt wrap ◌>>=◌ clock
    fresh_uuid outside random_token statement emit AccessToken.create RefreshToken.create
were_issued = refl

issued_example : Issued server 65 client 67 (codes "email") 70 issued_tokens (issue world).1.db
issued_example =
    issue_tokens-Issued server 65 client 67 (codes "email") 70 true no_context world
      (λ token. record { at = λ n d h. h }) (λ token. record { at = λ n d h. h }) were_issued

read_rotated :
    get_by_token server 65 (codes "#rotated") world
    ≡ (ok rotated_row, (get_by_token server 65 (codes "#rotated") world).1)
unfolding get_by_token find text_eq or_fail wrap ◌>>=◌ statement
read_rotated = refl

replayed_example :
    ((refresh (codes "rotated") world).0 ≡ err invalid_grant)
    × FamilyGone 65 70 (refresh (codes "rotated") world).1.db
unfolding is_revoked
replayed_example =
    refresh_replay server (λ n. refl) 65 (codes "B") (codes "email") (codes "rotated") rotated_row
      world (get_by_token server 65 (codes "#rotated") world).1 (record { at = λ n d h. h })
      read_rotated refl

read_live :
    get_by_token server 65 (codes "#refresh") world
    ≡ (ok refresh_row, (get_by_token server 65 (codes "#refresh") world).1)
unfolding get_by_token find text_eq or_fail wrap ◌>>=◌ statement
read_live = refl

-- The token's own client, 66, asks.
revoke_example :
    let (answer, after) =
      revoke_token server 65 66 (codes "refresh") (codes "refresh_token") world in
    (answer ≡ ok tt)
    × (((client.id ≡ 66) × FamilyGone 65 70 after.db)
        ⊎ ((client.id ≢ 66) × (after.db ≡ (get_by_token server 65 (codes "#refresh") world).1.db)))
revoke_example =
    revoke_token_refresh server (λ n. refl) 65 66 (codes "refresh") refresh_row world
      (get_by_token server 65 (codes "#refresh") world).1 (record { at = λ n d h. h }) read_live

family_example : FamilyGone 65 70 (revoke_token_family server 65 70 world).1.db
family_example =
    revoke_token_family-gone server (λ n. refl) 65 70 (record { at = λ n d h. h }) world
