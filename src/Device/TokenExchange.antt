-- ===== src/Device/TokenExchange.antt =====
-- `ExchangeToken` of internal/services/device_token_exchange.go (RFC 8693).
use shieldgate.Base.{◌+◌, Option, none, some, [], Text, is_cons, text_eq, join_space, if◌then◌else◌}
use shieldgate.Model.{
  Uuid, nil_uuid, seconds, Result, ok, err, invalid_grant, invalid_scope, bearer, type_access_token,
  grant_token_exchange, Client, AccessToken, JwtClaims, issued, TokenExchangeResponse,
}
use shieldgate.Scope.{parse_scope, scope_is_subset, validate_scope_for_client}
use shieldgate.Effect.{
  Env, Action, clock, fresh_uuid, outside, emit, wrap, lift, pure, guard, ◌>>=◌, ◌>>◌,
}
use shieldgate.Repo.AccessToken
use shieldgate.Auth.Claims.{user_ref}
use shieldgate.Auth.Introspect.{validate_access_token}

-- The scope to issue: the subject's, or the requested words if they are within it.
unfoldable pub exchanged_scope : Text → Text → Result Text
exchanged_scope granted requested =
    if is_cons requested
    then (if scope_is_subset requested granted
        then ok (join_space (parse_scope requested))
        else err invalid_scope)
    else ok granted

-- The subject's user, or `uuid.Nil` for a token without one.
abbrev pub parsed_user : Option Uuid → Uuid
parsed_user none = nil_uuid
parsed_user (some user) = user

module _ (e : Env) (tenant : Uuid) (client : Client) where
  abbrev subject_user : Text → Uuid
  subject_user user = if is_cons user then parsed_user (e.uuid_parse user) else nil_uuid

  -- The delegation token and its record.
  unfoldable pub issue_delegated : JwtClaims → Text → Action TokenExchangeResponse
  issue_delegated subject scope = do
    now ← clock e
    jti ← fresh_uuid e
    let claims : JwtClaims = record {
      jti = e.uuid_string jti;
      sub = subject.sub;
      aud = e.config.server_url;
      iss = e.config.server_url;
      exp = seconds (now + e.config.access_token_duration);
      iat = seconds now;
      tenant_id = e.uuid_string tenant;
      scope = scope;
      client_id = client.client_id;
      user_id = subject.user_id;
      email = [];
      name = [];
      act = some client.client_id;
    }
    token ← outside e (λ k. e.sign_access k claims)
    id ← fresh_uuid e
    family ← fresh_uuid e
    let row : AccessToken = record {
      id = id;
      tenant_id = tenant;
      token = e.sha256_base64 token;
      client_id = client.id;
      user_id = subject_user subject.user_id;
      family_id = family;
      scope = scope;
      expires_at = now + e.config.access_token_duration;
      created_at = 0;
    }
    AccessToken.create e row
    emit e (record {
      type = issued;
      tenant_id = tenant;
      client_id = client.id;
      user_id = user_ref row.user_id;
      grant_type = grant_token_exchange;
      scope = scope;
      family_id = family;
      credential = [];
      actor = client.client_id;
    })
    pure (record {
      access_token = token;
      issued_token_type = type_access_token;
      token_type = bearer;
      expires_in = seconds e.config.access_token_duration;
      scope = scope;
    })

  unfoldable pub exchange_token : Text → Text → Text → Action TokenExchangeResponse
  exchange_token subject_token subject_token_type requested = do
    guard (text_eq subject_token_type type_access_token) invalid_grant
    subject ← wrap (λ _. invalid_grant) (validate_access_token e tenant subject_token)
    scope ← lift (exchanged_scope subject.scope requested)
    allowed ← wrap (λ _. invalid_scope) (lift (validate_scope_for_client client scope))
    issue_delegated subject scope
