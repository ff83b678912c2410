-- ===== src/Auth/Introspect.antt =====
-- `IntrospectToken`, `ValidateAccessToken` and `GetUserInfo` of
-- internal/services/auth_service_impl.go. The repositories are taken to be configured.
use shieldgate.Base.{true, false, [], Text, if◌then◌else◌, text_eq, ◌==◌}
use shieldgate.Model.{
  Uuid, nil_uuid, seconds, is_expired, Result, ok, err, internal, invalid_token, tenant_mismatch,
  revoked_token, insufficient_scope, bearer, Client, AccessToken, IntrospectionResponse, UserInfo,
  JwtClaims,
}
use shieldgate.Scope.{scope_contains, scope_openid}
use shieldgate.Effect.{
  Env, Action, clock, attempt, or_fail, outside, wrap, pure, guard, ◌>>=◌, ◌>>◌,
}
use shieldgate.Repo.AccessToken
use shieldgate.Repo.Accounts.{get_client, get_user}
use shieldgate.Auth.Claims.{has_type, type_at_jwt, user_claims_for_scope}

abbrev pub inactive : IntrospectionResponse
inactive = record {
  active = false;
  scope = [];
  client_id = [];
  token_type = [];
  sub = [];
  user_id = [];
  exp = 0;
  iat = 0;
  iss = [];
}

module _ (e : Env) (tenant : Uuid) where
  abbrev pub active_response : AccessToken → Client → IntrospectionResponse
  active_response t client =
      let subject = if t.user_id == nil_uuid then [] else e.uuid_string t.user_id in
      record {
        active = true;
        scope = t.scope;
        client_id = client.client_id;
        token_type = bearer;
        sub = subject;
        user_id = subject;
        exp = seconds t.expires_at;
        iat = seconds t.created_at;
        iss = e.config.server_url;
      }

  unfoldable pub with_client : AccessToken → Result Client → Action IntrospectionResponse
  with_client t (err _) = pure inactive
  with_client t (ok client) = pure (active_response t client)

  unfoldable pub with_record : Result AccessToken → Action IntrospectionResponse
  with_record (err _) = pure inactive
  with_record (ok t) = do
    now ← clock e
    if is_expired now t.expires_at
        then pure inactive
        else (attempt (get_client e tenant t.client_id) >>= with_client t)

  unfoldable pub introspect_token : Text → Action IntrospectionResponse
  introspect_token token =
      attempt (AccessToken.get_by_token e tenant (e.sha256_base64 token)) >>= with_record

  unfoldable pub validate_access_token : Text → Action JwtClaims
  validate_access_token token = do
    parsed ← outside e (λ k. e.parse_jwt k e.config.server_url e.config.server_url token)
    guard parsed.valid internal
    guard (has_type parsed.typ type_at_jwt) invalid_token
    guard (text_eq parsed.claims.tenant_id (e.uuid_string tenant)) tenant_mismatch
    stored ← wrap (λ _. revoked_token) (AccessToken.get_by_token e tenant (e.sha256_base64 token))
    pure parsed.claims

  unfoldable pub get_user_info : Text → Action UserInfo
  get_user_info token = do
    claims ← validate_access_token token
    guard (scope_contains claims.scope scope_openid) insufficient_scope
    id ← or_fail (e.uuid_parse claims.user_id) invalid_token
    user ← get_user e tenant id
    pure (user_claims_for_scope e user claims.scope)
