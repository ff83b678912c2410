-- ===== src/Repo/RefreshToken.antt =====
-- internal/repo/gorm/refresh_token.go.
use shieldgate.Base.{Bool, some, is_some, not, length, List, Text, text_eq, ◌&&◌, ◌==◌, ltb}
use shieldgate.Model.{Time, Uuid, refresh_token_not_found, RefreshToken}
use shieldgate.Effect.{Db, Env, Action, clock, ◌>>=◌, pure}
use shieldgate.Repo.Statements.{find, write, change, created_time}

-- `tenant_id = ? AND token = ?`.
abbrev pub has_token : Uuid → Text → RefreshToken → Bool
has_token tenant token t = t.tenant_id == tenant && text_eq t.token token

-- `tenant_id = ? AND family_id = ?`.
abbrev pub in_family : Uuid → Uuid → RefreshToken → Bool
in_family tenant family t = t.tenant_id == tenant && t.family_id == family

-- `… AND revoked_at IS NULL`.
abbrev pub has_live_token : Uuid → Text → RefreshToken → Bool
has_live_token tenant token t = has_token tenant token t && not (is_some t.revoked_at)

abbrev pub put_refresh_tokens : List RefreshToken → Db → Db
put_refresh_tokens rows d = record d { refresh_tokens = rows }

-- The row as gorm stores it (`autoCreateTime`).
abbrev pub stored : Time → RefreshToken → RefreshToken
stored now t = record t { created_at = created_time now t.created_at }

abbrev pub mark_revoked : Time → RefreshToken → RefreshToken
mark_revoked now t = record t { revoked_at = some now }

module _ (e : Env) where
  delete_where : (RefreshToken → Bool) → Action (Unit {0})
  delete_where p = write e (λ d. record d { refresh_tokens = e.database.delete p d.refresh_tokens })

  unfoldable pub create : RefreshToken → Action (Unit {0})
  create token = do
    now ← clock e
    write e λ d. record d { refresh_tokens = e.database.insert (stored now token) d.refresh_tokens }

  unfoldable pub get_by_token : Uuid → Text → Action RefreshToken
  get_by_token tenant token =
      find e (λ d. d.refresh_tokens) (has_token tenant token) refresh_token_not_found

  -- The token is claimed if this call is the one that set `revoked_at`.
  unfoldable pub revoke : Uuid → Text → Action Bool
  revoke tenant token = do
    now ← clock e
    rows ←
        change e (λ d. d.refresh_tokens) put_refresh_tokens (has_live_token tenant token)
          (mark_revoked now)
    pure (length rows == 1)

  unfoldable pub delete : Uuid → Text → Action (Unit {0})
  unfolding delete_where
  delete tenant token = delete_where (has_token tenant token)

  unfoldable pub delete_expired : Action (Unit {0})
  unfolding delete_where
  delete_expired = do now ← clock e; delete_where (λ t. ltb t.expires_at now)

  unfoldable pub delete_by_family_id : Uuid → Uuid → Action (Unit {0})
  unfolding delete_where
  delete_by_family_id tenant family = delete_where (in_family tenant family)

  unfoldable pub delete_by_user_id : Uuid → Uuid → Action (Unit {0})
  unfolding delete_where
  delete_by_user_id tenant user = delete_where (λ t. t.tenant_id == tenant && t.user_id == user)

  unfoldable pub delete_by_client_id : Uuid → Uuid → Action (Unit {0})
  unfolding delete_where
  delete_by_client_id tenant client =
      delete_where (λ t. t.tenant_id == tenant && t.client_id == client)
