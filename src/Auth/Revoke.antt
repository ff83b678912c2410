-- ===== src/Auth/Revoke.antt =====
-- `RevokeToken` of internal/services/auth_service_impl.go (RFC 7009).
use shieldgate.Base.{
  Bool, true, false, not, ◌||◌, [], Text, codes, if◌then◌else◌, is_cons, text_eq, ◌==◌,
}
use shieldgate.Model.{Uuid, Result, ok, err, AccessToken, RefreshToken, TokenEvent, revoked}
use shieldgate.Effect.{Env, Action, emit, attempt, pure, ◌>>=◌, ◌>>◌}
use shieldgate.Repo.RefreshToken
use shieldgate.Repo.AccessToken
use shieldgate.Auth.Claims.{user_ref}
use shieldgate.Auth.Issue.{revoke_token_family}

module _ (e : Env) (tenant requesting : Uuid) where
  abbrev pub revoked_event : Uuid → Uuid → Uuid → TokenEvent
  revoked_event client user family = record {
    type = revoked;
    tenant_id = tenant;
    client_id = client;
    user_id = user_ref user;
    grant_type = [];
    scope = [];
    family_id = family;
    credential = [];
    actor = [];
  }

  -- `true` says that the call returns here.
  unfoldable pub revoke_refresh : Result RefreshToken → Action Bool
  revoke_refresh (err _) = pure false
  revoke_refresh (ok t) = if not (t.client_id == requesting) then pure true else (do
    revoke_token_family e tenant t.family_id
    emit e (revoked_event t.client_id t.user_id t.family_id)
    pure true)

  unfoldable pub deleted_access : AccessToken → Result (Unit {0}) → Action (Unit {0})
  deleted_access t (err _) = pure tt
  deleted_access t (ok _) = emit e (revoked_event t.client_id t.user_id t.family_id)

  unfoldable pub revoke_access : Text → Result AccessToken → Action (Unit {0})
  revoke_access hash (err _) = pure tt
  revoke_access hash (ok t) =
      if not (t.client_id == requesting)
      then pure tt
      else (attempt (AccessToken.delete e tenant hash) >>= deleted_access t)

  unfoldable pub try_refresh : Text → Text → Action Bool
  try_refresh hash hint =
      if text_eq hint (codes "refresh_token") || not (is_cons hint)
      then (attempt (RefreshToken.get_by_token e tenant hash) >>= revoke_refresh)
      else pure false

  unfoldable pub try_access : Text → Text → Action (Unit {0})
  try_access hash hint =
      if text_eq hint (codes "access_token") || not (is_cons hint)
      then (attempt (AccessToken.get_by_token e tenant hash) >>= revoke_access hash)
      else pure tt

  unfoldable pub revoke_token : Text → Text → Action (Unit {0})
  revoke_token token hint = do
    done ← try_refresh (e.sha256_base64 token) hint
    if done then pure tt else try_access (e.sha256_base64 token) hint
