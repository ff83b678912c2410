-- ===== src/Sessions/Service.antt =====
-- The methods of internal/services/session_service_impl.go. The log lines are left out.
use shieldgate.Base.{◌+◌, Bool, true, false, not, List, Text, is_cons, join_space, if◌then◌else◌}
use shieldgate.Model.{
  Uuid, Error, wrapped, Result, ok, err, is_expired, session_not_found, resource_not_found, Session,
  Consent,
}
use shieldgate.Scope.{parse_scope, scope_is_subset, union_scopes}
use shieldgate.Effect.{
  Env, Action, clock, fresh_uuid, random_token, attempt, wrap, throw, pure, ◌>>=◌, ◌>>◌,
}
use shieldgate.Repo.Session.{
  create_session_row, get_by_token_hash, delete_by_token_hash, delete_expired_sessions, get_consent,
  upsert_consent,
}

-- `errors.Is(err, ErrResourceNotFound)`.
unfoldable pub is_absent : Error → Bool
is_absent resource_not_found = true
is_absent (wrapped x) = is_absent x
is_absent _ = false

module _ (e : Env) (tenant : Uuid) where
  -- `CreateSession`: the token and its session.
  unfoldable pub create_session : Uuid → List Text → Text → Text → Action (Text × Session)
  create_session user amr ip_address user_agent = do
    token ← wrap wrapped (random_token e 32)
    now ← clock e
    id ← fresh_uuid e
    let row : Session = record {
      id = id;
      tenant_id = tenant;
      user_id = user;
      token_hash = e.sha256_base64 token;
      auth_time = now;
      amr = amr;
      ip_address = ip_address;
      user_agent = user_agent;
      expires_at = now + e.config.session_duration;
      created_at = 0;
    }
    wrap wrapped (create_session_row e row)
    pure (token, row)

  -- The session that was found, unless it has expired.
  unfoldable pub live_session : Session → Action Session
  live_session s = do
    now ← clock e
    if is_expired now s.expires_at
        then attempt (delete_by_token_hash e tenant s.token_hash) >> throw session_not_found
        else pure s

  -- `GetSession`.
  unfoldable pub get_session : Text → Action Session
  get_session token =
      if not (is_cons token)
      then throw session_not_found
      else (get_by_token_hash e tenant (e.sha256_base64 token) >>= live_session)

  -- `EndSession`.
  unfoldable pub end_session : Text → Action (Unit {0})
  end_session token =
      if not (is_cons token) then pure tt else delete_by_token_hash e tenant (e.sha256_base64 token)

  -- `CleanupExpiredSessions`.
  unfoldable pub cleanup_expired_sessions : Action (Unit {0})
  cleanup_expired_sessions = delete_expired_sessions e

  module _ (user client : Uuid) where
    unfoldable pub covered_by : Text → Result Consent → Action Bool
    covered_by scope (ok c) = pure (scope_is_subset scope c.scope)
    covered_by scope (err x) = if is_absent x then pure false else throw x

    -- `HasConsent`.
    unfoldable pub has_consent : Text → Action Bool
    has_consent scope = attempt (get_consent e tenant user client) >>= covered_by scope

    unfoldable pub store_consent : List Text → Action (Unit {0})
    store_consent granted = do
      id ← fresh_uuid e
      now ← clock e
      upsert_consent e (record {
        id = id;
        tenant_id = tenant;
        user_id = user;
        client_id = client;
        scope = join_space granted;
        created_at = 0;
        updated_at = now;
      })

    unfoldable pub widen_consent : Text → Result Consent → Action (Unit {0})
    widen_consent scope (ok c) =
        store_consent (union_scopes (parse_scope c.scope) (parse_scope scope))
    widen_consent scope (err x) = if is_absent x then store_consent (parse_scope scope) else throw x

    -- `GrantConsent`.
    unfoldable pub grant_consent : Text → Action (Unit {0})
    grant_consent scope = attempt (get_consent e tenant user client) >>= widen_consent scope
