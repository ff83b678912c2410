-- ===== src/Auth/Tenancy.antt =====
-- The token service of one tenant, and the codes and tokens of another.
use shieldgate.Base.{◌≡◌, ◌≢◌, refl, Bool, Text}
use shieldgate.Model.{
  Uuid, Result, ok, err, Client, AuthorizationCode, RefreshToken, AccessToken, TokenResponse,
}
use shieldgate.Effect.{Env, Action, World}
use shieldgate.Effect.Keeps.{Keeps, Rely, keeps_rules, Keeps-pure, Keeps-throw, Keeps-emit}
use shieldgate.Repo.Tenancy
use shieldgate.Repo.Tenancy.{Holdings, holdings, Holds}
use shieldgate.Auth.Claims.{AuthContext, generate_jwt, generate_id_token}
use shieldgate.Repo.AuthCode.{Consumed, consumed, already_used}
use shieldgate.Auth.Exchange
use shieldgate.Auth.Exchange.{check_pkce, redeem, on_consumed, exchange_authorization_code}
use shieldgate.Auth.Refresh
use shieldgate.Auth.Refresh.{
  refresh_token_reused, confirm_rotation, issue_rotated, rotate, refresh_live, refresh_found,
  refresh_tokens,
}
use shieldgate.Auth.Revoke.{
  revoke_refresh, deleted_access, revoke_access, try_refresh, try_access, revoke_token,
}
use shieldgate.Auth.Issue.{
  store_access_token, store_refresh_token, issue_id_token, issue_tokens, revoke_token_family,
}

module _ (e : Env) (u tenant : Uuid) (other : tenant ≢ u) (v : Holdings)
    (rely : Rely e (Holds u v)) where
  module _ (client : Client) (user : Uuid) (scope : Text) where
    generate_jwt-Holds : (n : Uuid) → Keeps (Holds u v) (generate_jwt e tenant client user scope n)
    unfolding generate_jwt
    generate_jwt-Holds n = search keeps_rules

    store_access_token-Holds :
        (family_of : Action Uuid)
        → Keeps (Holds u v) family_of
        → Keeps (Holds u v) (store_access_token e tenant client user scope family_of)
    unfolding store_access_token
    store_access_token-Holds family_of k =
        search
          (
            keeps_rules,
            generate_jwt-Holds,
            Tenancy.AccessToken-create-Holds e u tenant other v rely,
          )
          depth 12

    store_refresh_token-Holds :
        (family : Uuid) (auth : AuthContext)
        → Keeps (Holds u v) (store_refresh_token e tenant client user scope family auth)
    unfolding store_refresh_token
    store_refresh_token-Holds family auth =
        search (keeps_rules, Tenancy.RefreshToken-create-Holds e u tenant other v rely) depth 12

    issue_id_token-Holds :
        (auth : AuthContext) (access : Text)
        → Keeps (Holds u v) (issue_id_token e tenant client user scope auth access)
    unfolding issue_id_token generate_id_token
    issue_id_token-Holds auth access =
        search (keeps_rules, Tenancy.get_user-Holds e u tenant other v rely) depth 12

    pub issue_tokens-Holds :
        (family : Uuid) (with_refresh with_id : Bool) (auth : AuthContext)
        → Keeps
            (Holds u v)
            (issue_tokens e tenant client user scope family with_refresh with_id auth)
    unfolding issue_tokens
    issue_tokens-Holds family with_refresh with_id auth =
        search
          (keeps_rules, store_access_token-Holds, store_refresh_token-Holds, issue_id_token-Holds)
          depth 12

  pub revoke_token_family-Holds :
      (family : Uuid) → Keeps (Holds u v) (revoke_token_family e tenant family)
  unfolding revoke_token_family
  revoke_token_family-Holds family =
      search
        (
          keeps_rules,
          Tenancy.AccessToken-delete_by_family_id-Holds e u tenant other v rely,
          Tenancy.RefreshToken-delete_by_family_id-Holds e u tenant other v rely,
        )
        depth 12

  check_pkce-Holds :
      (c : AuthorizationCode) (verifier : Text) → Keeps (Holds u v) (check_pkce e tenant c verifier)
  unfolding check_pkce
  check_pkce-Holds c verifier = search keeps_rules depth 8

  module _ (code client_id redirect verifier : Text) where
    redeem-Holds :
        (c : AuthorizationCode)
        → Keeps (Holds u v) (redeem e tenant code client_id redirect verifier c)
    unfolding redeem
    redeem-Holds c =
        search
          (
            keeps_rules,
            check_pkce-Holds,
            issue_tokens-Holds,
            Tenancy.get_client-Holds e u tenant other v rely,
          )
          depth 12

    drop_expired-Holds :
        Keeps (Holds u v) (Exchange.drop_expired e tenant code client_id redirect verifier)
    unfolding Exchange.drop_expired
    drop_expired-Holds = search (keeps_rules, Tenancy.AuthCode-delete-Holds e u tenant other v rely)

    on_consumed-Holds :
        (r : Result Consumed)
        → Keeps (Holds u v) (on_consumed e tenant code client_id redirect verifier r)
    unfolding on_consumed
    on_consumed-Holds (ok (consumed c)) = search (keeps_rules, redeem-Holds, drop_expired-Holds)
    on_consumed-Holds (ok (already_used c)) = search (keeps_rules, revoke_token_family-Holds)
    on_consumed-Holds (err x) = Keeps-throw _

    pub exchange-Holds :
        Keeps (Holds u v) (exchange_authorization_code e tenant code client_id redirect verifier)
    unfolding exchange_authorization_code
    exchange-Holds =
        search
          (keeps_rules, Tenancy.AuthCode-consume-Holds e u tenant other v rely, on_consumed-Holds)

  reused-Holds : (t : RefreshToken) → Keeps (Holds u v) (refresh_token_reused e tenant t)
  unfolding refresh_token_reused
  reused-Holds t = search (keeps_rules, revoke_token_family-Holds)

  confirm-Holds :
      (t : RefreshToken) (response : TokenResponse) (r : Result RefreshToken)
      → Keeps (Holds u v) (confirm_rotation e tenant t response r)
  unfolding confirm_rotation
  confirm-Holds t response (ok _) = Keeps-pure _
  confirm-Holds t response (err x) = search (keeps_rules, revoke_token_family-Holds) depth 8

  rotate-Holds :
      (t : RefreshToken) (client : Client) (scope : Text)
      → Keeps (Holds u v) (rotate e tenant t client scope)
  unfolding rotate issue_rotated
  rotate-Holds t client scope =
      search
        (
          keeps_rules,
          reused-Holds,
          confirm-Holds,
          issue_tokens-Holds,
          Tenancy.RefreshToken-revoke-Holds e u tenant other v rely,
          Tenancy.RefreshToken-get_by_token-Holds e u tenant other v rely,
        )
        depth 12

  refresh_found-Holds :
      (client_id requested token : Text) (t : RefreshToken)
      → Keeps (Holds u v) (refresh_found e tenant client_id requested token t)
  unfolding refresh_found refresh_live Refresh.drop_expired
  refresh_found-Holds client_id requested token t =
      search
        (
          keeps_rules,
          reused-Holds,
          rotate-Holds,
          Tenancy.get_client-Holds e u tenant other v rely,
          Tenancy.RefreshToken-delete-Holds e u tenant other v rely,
        )
        depth 14

  pub refresh-Holds :
      (client_id requested token : Text)
      → Keeps (Holds u v) (refresh_tokens e tenant client_id requested token)
  unfolding refresh_tokens
  refresh-Holds client_id requested token =
      search
        (
          keeps_rules,
          refresh_found-Holds,
          Tenancy.RefreshToken-get_by_token-Holds e u tenant other v rely,
        )
        depth 8

  module _ (requesting : Uuid) where
    revoke_refresh-Holds :
        (r : Result RefreshToken) → Keeps (Holds u v) (revoke_refresh e tenant requesting r)
    unfolding revoke_refresh
    revoke_refresh-Holds (ok t) = search (keeps_rules, revoke_token_family-Holds) depth 8
    revoke_refresh-Holds (err x) = Keeps-pure _

    deleted_access-Holds :
        (t : AccessToken) (r : Result (Unit {0}))
        → Keeps (Holds u v) (deleted_access e tenant requesting t r)
    unfolding deleted_access
    deleted_access-Holds t (ok _) = Keeps-emit e _
    deleted_access-Holds t (err x) = Keeps-pure _

    revoke_access-Holds :
        (hash : Text) (r : Result AccessToken)
        → Keeps (Holds u v) (revoke_access e tenant requesting hash r)
    unfolding revoke_access
    revoke_access-Holds hash (ok t) =
        search
          (
            keeps_rules,
            deleted_access-Holds,
            Tenancy.AccessToken-delete-Holds e u tenant other v rely,
          )
          depth 8
    revoke_access-Holds hash (err x) = Keeps-pure _

    pub revoke-Holds :
        (token hint : Text) → Keeps (Holds u v) (revoke_token e tenant requesting token hint)
    unfolding revoke_token try_refresh try_access
    revoke-Holds token hint =
        search
          (
            keeps_rules,
            revoke_refresh-Holds,
            revoke_access-Holds,
            Tenancy.AccessToken-get_by_token-Holds e u tenant other v rely,
            Tenancy.RefreshToken-get_by_token-Holds e u tenant other v rely,
          )
          depth 12

-- Exchanging a code, refreshing and revoking for one tenant leave the authorization codes, access
-- tokens and refresh tokens of another tenant exactly as they are, whatever the request and its
-- outcome, as long as other requests leave them so.
pub tenant_isolation :
    (e : Env) (tenant u : Uuid) (w : World)
    → tenant ≢ u
    → Rely e (Holds u (holdings u w.db))
    → (token client_id redirect verifier requested hint : Text) (requesting : Uuid)
    → let code_grant = exchange_authorization_code e tenant token client_id redirect verifier w in
      let refresh_grant = refresh_tokens e tenant client_id requested token w in
      let revocation = revoke_token e tenant requesting token hint w in
      (holdings u code_grant.1.db ≡ holdings u w.db)
      × (holdings u refresh_grant.1.db ≡ holdings u w.db)
      × (holdings u revocation.1.db ≡ holdings u w.db)
tenant_isolation e tenant u w other rely token client_id redirect verifier requested hint
      requesting =
    let v = holdings u w.db in
    (
      (exchange-Holds e u tenant other v rely token client_id redirect verifier).at w refl,
      (refresh-Holds e u tenant other v rely client_id requested token).at w refl,
      (revoke-Holds e u tenant other v rely requesting token hint).at w refl,
    )
