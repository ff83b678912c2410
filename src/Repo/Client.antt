-- ===== src/Repo/Client.antt =====
-- internal/repo/gorm/client.go, but for `GetByID` and the listing. gorm adds `deleted_at IS NULL` to
-- queries, and stores the time of each `Save` in `updated_at`.
use shieldgate.Base.{
  Bool, ◌&&◌, ◌==◌, is_some, not, some, Text, codes, text_eq, is_cons, if◌then◌else◌,
}
use shieldgate.Model.{Uuid, Time, client_not_found, Client}
use shieldgate.Effect.{Env, Action, clock, pure, ◌>>=◌, ◌>>◌}
use shieldgate.Repo.Statements.{find, write, created_time, save_row}
use shieldgate.Repo.Accounts.{is_client}

-- `tenant_id = ? AND client_id = ?`.
abbrev pub has_client_id : Uuid → Text → Client → Bool
has_client_id tenant id c =
    c.tenant_id == tenant && text_eq c.client_id id && not (is_some c.deleted_at)

-- The row as gorm stores it, and as it is read back.
abbrev pub stored_client : Time → Client → Client
stored_client now c = record c {
  token_endpoint_auth_method =
      if is_cons c.token_endpoint_auth_method
      then c.token_endpoint_auth_method
      else codes "client_secret_basic";
  created_at = created_time now c.created_at;
  updated_at = created_time now c.updated_at;
}

abbrev mark_deleted : Time → Client → Client
mark_deleted now c = record c { deleted_at = some now }

module _ (e : Env) where
  unfoldable pub create_client_row : Client → Action Client
  create_client_row c = do
    now ← clock e
    write e λ d. record d { clients = e.database.insert (stored_client now c) d.clients }
    pure (stored_client now c)

  unfoldable pub get_by_client_id : Uuid → Text → Action Client
  get_by_client_id tenant id = find e (λ d. d.clients) (has_client_id tenant id) client_not_found

  -- `Save`, and the row as it is afterwards.
  unfoldable pub update_client_row : Client → Action Client
  unfolding save_row
  update_client_row c = do
    now ← clock e
    write e
        λ d. record d { clients = save_row e (λ r. r.id) (record c { updated_at = now }) d.clients }
    pure (record c { updated_at = now })

  -- A soft deletion.
  unfoldable pub delete_client_row : Uuid → Uuid → Action (Unit {0})
  delete_client_row tenant id = do
    now ← clock e
    write e λ d. record d {
      clients = (e.database.update (is_client tenant id) (mark_deleted now) d.clients).0;
    }
