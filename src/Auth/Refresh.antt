-- ===== src/Auth/Refresh.antt =====
-- `RefreshTokens` of internal/services/auth_service_impl.go.
use shieldgate.Base.{Bool, true, false, not, [], Text, if◌then◌else◌, is_cons, text_eq}
use shieldgate.Model.{
  Uuid, is_expired, is_revoked, Error, wrapped, Result, ok, err, invalid_grant, invalid_scope,
  refresh_token_not_found, grant_refresh_token, Client, RefreshToken, TokenResponse, TokenEvent,
  reuse_detected,
}
use shieldgate.Scope.{scope_is_subset}
use shieldgate.Effect.{
  Env, Action, clock, emit, wrap, attempt, throw, lift, pure, guard, ◌>>=◌, ◌>>◌,
}
use shieldgate.Repo.RefreshToken
use shieldgate.Repo.Accounts.{get_client}
use shieldgate.Auth.Claims.{AuthContext, user_ref}
use shieldgate.Auth.Issue.{issue_tokens, revoke_token_family}

-- `errors.Is(err, ErrRefreshTokenNotFound)`.
unfoldable pub is_missing : Error → Bool
is_missing refresh_token_not_found = true
is_missing (wrapped x) = is_missing x
is_missing _ = false

-- Scope narrowing: the token's scope, or the requested one if that is a subset.
unfoldable pub narrowed_scope : Text → Text → Result Text
narrowed_scope granted requested =
    if is_cons requested
    then (if scope_is_subset requested granted then ok requested else err invalid_scope)
    else ok granted

module _ (e : Env) (tenant : Uuid) where
  abbrev pub token_reused : RefreshToken → TokenEvent
  token_reused t = record {
    type = reuse_detected;
    tenant_id = tenant;
    client_id = t.client_id;
    user_id = user_ref t.user_id;
    grant_type = [];
    scope = [];
    family_id = t.family_id;
    credential = grant_refresh_token;
    actor = [];
  }

  abbrev pub token_context : RefreshToken → AuthContext
  token_context t = record {
    grant_type = grant_refresh_token;
    auth_time = t.auth_time;
    amr = t.amr;
    nonce = [];
  }

  -- `refreshTokenReused`, and the error that follows each of its calls.
  unfoldable pub refresh_token_reused : RefreshToken → Action TokenResponse
  refresh_token_reused t = do
    revoke_token_family e tenant t.family_id
    emit e (token_reused t)
    throw invalid_grant

  -- The claimed token is read again after the new tokens are stored.
  unfoldable pub confirm_rotation :
      RefreshToken → TokenResponse → Result RefreshToken → Action TokenResponse
  confirm_rotation t response (ok _) = pure response
  confirm_rotation t response (err x) =
      if not (is_missing x)
      then throw (wrapped x)
      else (do revoke_token_family e tenant t.family_id; throw invalid_grant)

  -- What follows a successful claim.
  unfoldable pub issue_rotated : RefreshToken → Client → Text → Action TokenResponse
  issue_rotated t client scope = do
    response ← issue_tokens e tenant client t.user_id scope t.family_id true true (token_context t)
    found ← attempt (RefreshToken.get_by_token e tenant t.token)
    confirm_rotation t response found

  -- The claim: an atomic conditional update.
  unfoldable pub rotate : RefreshToken → Client → Text → Action TokenResponse
  rotate t client scope = do
    claimed ← wrap wrapped (RefreshToken.revoke e tenant t.token)
    if not claimed then refresh_token_reused t else issue_rotated t client scope

  unfoldable pub drop_expired : Text → Action TokenResponse
  drop_expired refresh_token = do
    deleted ← attempt (RefreshToken.delete e tenant (e.sha256_base64 refresh_token))
    throw invalid_grant

  module _ (client_id requested : Text) where
    -- The checks on a token that is neither revoked nor expired.
    unfoldable pub refresh_live : RefreshToken → Action TokenResponse
    refresh_live t = do
      guard (text_eq (e.uuid_string t.client_id) client_id) invalid_grant
      scope ← lift (narrowed_scope t.scope requested)
      client ← wrap (λ _. invalid_grant) (get_client e tenant t.client_id)
      rotate t client scope

    unfoldable pub refresh_found : Text → RefreshToken → Action TokenResponse
    refresh_found refresh_token t = if is_revoked t then refresh_token_reused t else (do
      now ← clock e
      if is_expired now t.expires_at then drop_expired refresh_token else refresh_live t)

    unfoldable pub refresh_tokens : Text → Action TokenResponse
    refresh_tokens refresh_token = do
      t ←
          wrap (λ _. invalid_grant)
            (RefreshToken.get_by_token e tenant (e.sha256_base64 refresh_token))
      refresh_found refresh_token t
