-- ===== src/Auth/Issue.antt =====
-- internal/services/auth_service_impl.go: authorization codes and the issue of tokens. The log lines
-- are left out.
use shieldgate.Base.{Bool, true, ◌&&◌, none, some, List, [], Text, if◌then◌else◌, ◌+◌}
use shieldgate.Model.{
  Uuid, Time, nil_uuid, seconds, wrapped, bearer, grant_client_credentials, Client,
  AuthorizationCode, AccessToken, RefreshToken, TokenResponse, TokenEvent, issued,
}
use shieldgate.Scope.{scope_contains, scope_openid}
use shieldgate.Effect.{
  Env, Action, clock, fresh_uuid, random_token, emit, wrap, attempt, pure, ◌>>=◌, ◌>>◌,
}
use shieldgate.Repo.AuthCode
use shieldgate.Repo.AccessToken
use shieldgate.Repo.RefreshToken
use shieldgate.Repo.Accounts.{get_client, get_user}
use shieldgate.Auth.Claims.{AuthContext, no_context, user_ref, generate_jwt, generate_id_token}

module _ (e : Env) where
  -- `GenerateAuthorizationCode`.
  unfoldable pub generate_authorization_code :
      Uuid
      → Uuid
      → Uuid
      → Text
      → Text
      → Text
      → Text
      → Text
      → Time
      → List Text
      → Action AuthorizationCode
  generate_authorization_code tenant client user redirect scope challenge method nonce auth amr = do
    code ← wrap wrapped (random_token e 32)
    id ← fresh_uuid e
    now ← clock e
    let row : AuthorizationCode = record {
      id = id;
      tenant_id = tenant;
      code = code;
      client_id = client;
      user_id = user;
      redirect_uri = redirect;
      scope = scope;
      code_challenge = challenge;
      code_challenge_method = method;
      nonce = nonce;
      auth_time = some auth;
      amr = amr;
      used_at = none;
      expires_at = now + e.config.authorization_code_duration;
      created_at = 0;
    }
    wrap wrapped (AuthCode.create e row)
    pure row

  -- Signs an access token and stores its hash, in the family that `family_of` gives.
  unfoldable pub store_access_token :
      Uuid → Client → Uuid → Text → Action Uuid → Action (Text × Uuid)
  store_access_token tenant client user scope family_of = do
    token ← wrap wrapped (generate_jwt e tenant client user scope e.config.access_token_duration)
    id ← fresh_uuid e
    family ← family_of
    now ← clock e
    let row : AccessToken = record {
      id = id;
      tenant_id = tenant;
      token = e.sha256_base64 token;
      client_id = client.id;
      user_id = user;
      family_id = family;
      scope = scope;
      expires_at = now + e.config.access_token_duration;
      created_at = 0;
    }
    wrap wrapped (AccessToken.create e row)
    pure (token, family)

  abbrev issue_event : Uuid → Client → Uuid → Text → Uuid → Text → TokenEvent
  issue_event tenant client user scope family grant = record {
    type = issued;
    tenant_id = tenant;
    client_id = client.id;
    user_id = user_ref user;
    grant_type = grant;
    scope = scope;
    family_id = family;
    credential = [];
    actor = [];
  }

  -- `GenerateClientCredentialsTokens`.
  unfoldable pub generate_client_credentials_tokens : Uuid → Client → Text → Action TokenResponse
  generate_client_credentials_tokens tenant client scope = do
    (token, family) ← store_access_token tenant client nil_uuid scope (fresh_uuid e)
    emit e (issue_event tenant client nil_uuid scope family grant_client_credentials)
    pure (record {
      access_token = token;
      token_type = bearer;
      expires_in = seconds e.config.access_token_duration;
      refresh_token = [];
      id_token = [];
      scope = scope;
    })

  -- The refresh token part of `issueTokens`.
  unfoldable pub store_refresh_token :
      Uuid → Client → Uuid → Text → Uuid → AuthContext → Action Text
  store_refresh_token tenant client user scope family auth = do
    token ← wrap wrapped (random_token e 64)
    id ← fresh_uuid e
    now ← clock e
    let row : RefreshToken = record {
      id = id;
      tenant_id = tenant;
      token = e.sha256_base64 token;
      client_id = client.id;
      user_id = user;
      family_id = family;
      scope = scope;
      auth_time = auth.auth_time;
      amr = auth.amr;
      revoked_at = none;
      expires_at = now + e.config.refresh_token_duration;
      created_at = 0;
    }
    wrap wrapped (RefreshToken.create e row)
    pure token

  -- The ID token part of `issueTokens`.
  unfoldable pub issue_id_token : Uuid → Client → Uuid → Text → AuthContext → Text → Action Text
  issue_id_token tenant client user scope auth access_token = do
    account ← wrap wrapped (get_user e tenant user)
    wrap wrapped (
        generate_id_token e account (record {
          client_id = client.client_id;
          scope = scope;
          nonce = auth.nonce;
          auth_time = auth.auth_time;
          amr = auth.amr;
          access_token = access_token;
        }))

  -- `issueTokens`.
  unfoldable pub issue_tokens :
      Uuid → Client → Uuid → Text → Uuid → Bool → Bool → AuthContext → Action TokenResponse
  issue_tokens tenant client user scope family include_refresh include_id auth = do
    (access, _) ← store_access_token tenant client user scope (pure family)
    refresh ←
        if include_refresh
        then store_refresh_token tenant client user scope family auth
        else pure []
    id_token ←
        if include_id && scope_contains scope scope_openid
        then issue_id_token tenant client user scope auth access
        else pure []
    emit e (issue_event tenant client user scope family auth.grant_type)
    pure (record {
      access_token = access;
      token_type = bearer;
      expires_in = seconds e.config.access_token_duration;
      refresh_token = refresh;
      id_token = id_token;
      scope = scope;
    })

  -- `GenerateTokens`.
  unfoldable pub generate_tokens : Uuid → Uuid → Uuid → Text → Bool → Action TokenResponse
  generate_tokens tenant client_id user scope include_id = do
    client ← wrap wrapped (get_client e tenant client_id)
    family ← fresh_uuid e
    issue_tokens tenant client user scope family true include_id no_context

  -- `revokeTokenFamily`: a failure of either deletion is only logged.
  unfoldable pub revoke_token_family : Uuid → Uuid → Action (Unit {0})
  revoke_token_family tenant family = do
    refresh ← attempt (RefreshToken.delete_by_family_id e tenant family)
    access ← attempt (AccessToken.delete_by_family_id e tenant family)
    pure tt
