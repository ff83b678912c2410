-- ===== src/Repo/AccessToken.antt =====
-- internal/repo/gorm/access_token.go.
use shieldgate.Base.{Bool, Text, text_eq, ◌&&◌, ◌==◌, ltb}
use shieldgate.Model.{Time, Uuid, access_token_not_found, AccessToken}
use shieldgate.Effect.{Env, Action, clock, ◌>>=◌}
use shieldgate.Repo.Statements.{find, write, created_time}

-- `tenant_id = ? AND token = ?`.
abbrev pub has_token : Uuid → Text → AccessToken → Bool
has_token tenant token t = t.tenant_id == tenant && text_eq t.token token

-- `tenant_id = ? AND family_id = ?`.
abbrev pub in_family : Uuid → Uuid → AccessToken → Bool
in_family tenant family t = t.tenant_id == tenant && t.family_id == family

-- The row as gorm stores it (`autoCreateTime`).
abbrev pub stored : Time → AccessToken → AccessToken
stored now t = record t { created_at = created_time now t.created_at }

module _ (e : Env) where
  delete_where : (AccessToken → Bool) → Action (Unit {0})
  delete_where p = write e (λ d. record d { access_tokens = e.database.delete p d.access_tokens })

  unfoldable pub create : AccessToken → Action (Unit {0})
  create token = do
    now ← clock e
    write e λ d. record d { access_tokens = e.database.insert (stored now token) d.access_tokens }

  unfoldable pub get_by_token : Uuid → Text → Action AccessToken
  get_by_token tenant token =
      find e (λ d. d.access_tokens) (has_token tenant token) access_token_not_found

  unfoldable pub delete : Uuid → Text → Action (Unit {0})
  unfolding delete_where
  delete tenant token = delete_where (has_token tenant token)

  unfoldable pub delete_expired : Action (Unit {0})
  unfolding delete_where
  delete_expired = do now ← clock e; delete_where (λ t. ltb t.expires_at now)

  unfoldable pub delete_by_family_id : Uuid → Uuid → Action (Unit {0})
  unfolding delete_where
  delete_by_family_id tenant family = delete_where (in_family tenant family)

  unfoldable pub delete_by_user_id : Uuid → Uuid → Action (Unit {0})
  unfolding delete_where
  delete_by_user_id tenant user = delete_where (λ t. t.tenant_id == tenant && t.user_id == user)

  unfoldable pub delete_by_client_id : Uuid → Uuid → Action (Unit {0})
  unfolding delete_where
  delete_by_client_id tenant client =
      delete_where (λ t. t.tenant_id == tenant && t.client_id == client)
