-- ===== src/Repo/Accounts.antt =====
-- `GetByID` of internal/repo/gorm/client.go and internal/repo/gorm/user.go. gorm adds
-- `deleted_at IS NULL`, as both records have a soft-delete column.
use shieldgate.Base.{Bool, ◌&&◌, ◌==◌, is_some, not}
use shieldgate.Model.{Uuid, client_not_found, user_not_found, Client, User}
use shieldgate.Effect.{Env, Action}
use shieldgate.Repo.Statements.{find}

-- `tenant_id = ? AND id = ?`.
abbrev pub is_client : Uuid → Uuid → Client → Bool
is_client tenant id c = c.tenant_id == tenant && c.id == id && not (is_some c.deleted_at)

abbrev pub is_user : Uuid → Uuid → User → Bool
is_user tenant id u = u.tenant_id == tenant && u.id == id && not (is_some u.deleted_at)

module _ (e : Env) where
  unfoldable pub get_client : Uuid → Uuid → Action Client
  get_client tenant id = find e (λ d. d.clients) (is_client tenant id) client_not_found

  unfoldable pub get_user : Uuid → Uuid → Action User
  get_user tenant id = find e (λ d. d.users) (is_user tenant id) user_not_found
