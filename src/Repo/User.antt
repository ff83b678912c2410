-- ===== src/Repo/User.antt =====
-- internal/repo/gorm/user.go, but for `GetByID` and the listing. gorm adds `deleted_at IS NULL` to
-- queries, fills in the columns' defaults, and stores the time of each `Save` in `updated_at`.
use shieldgate.Base.{
  Bool, ◌&&◌, ◌==◌, is_some, not, some, Text, codes, text_eq, is_cons, if◌then◌else◌,
}
use shieldgate.Model.{
  Uuid, Time, user_not_found, User, UserStatus, pending_verification, other_user_status,
}
use shieldgate.Effect.{Env, Db, Action, clock, pure, ◌>>=◌, ◌>>◌}
use shieldgate.Repo.Statements.{find, write, created_time, save_row}
use shieldgate.Repo.Accounts.{is_user}

-- `tenant_id = ? AND email = ?`.
abbrev pub has_email : Uuid → Text → User → Bool
has_email tenant email u =
    u.tenant_id == tenant && text_eq u.email email && not (is_some u.deleted_at)

-- `tenant_id = ? AND username = ?`.
abbrev pub has_username : Uuid → Text → User → Bool
has_username tenant name u =
    u.tenant_id == tenant && text_eq u.username name && not (is_some u.deleted_at)

abbrev default_text : Text → Text → Text
default_text given t = if is_cons t then t else given

-- `default:'pending'`, for a status that was left empty.
abbrev default_status : UserStatus → UserStatus
default_status (other_user_status s) =
    if is_cons s then other_user_status s else pending_verification
default_status s = s

-- The row as gorm stores it, and as it is read back.
abbrev pub stored : Time → User → User
stored now u = record u {
  status = default_status u.status;
  locale = default_text (codes "en") u.locale;
  timezone = default_text (codes "UTC") u.timezone;
  metadata = default_text (codes "{}") u.metadata;
  created_at = created_time now u.created_at;
  updated_at = created_time now u.updated_at;
}

abbrev pub save_user : Env → Time → User → Db → Db
save_user e now u d = record d {
  users = save_row e (λ r. r.id) (record u { updated_at = now }) d.users;
}

abbrev mark_deleted : Time → User → User
mark_deleted now u = record u { deleted_at = some now }

module _ (e : Env) where
  unfoldable pub create_user_row : User → Action User
  create_user_row u = do
    now ← clock e
    write e λ d. record d { users = e.database.insert (stored now u) d.users }
    pure (stored now u)

  unfoldable pub get_by_email : Uuid → Text → Action User
  get_by_email tenant email = find e (λ d. d.users) (has_email tenant email) user_not_found

  unfoldable pub get_by_username : Uuid → Text → Action User
  get_by_username tenant name = find e (λ d. d.users) (has_username tenant name) user_not_found

  unfoldable pub update_user : User → Action (Unit {0})
  unfolding save_row
  update_user u = do now ← clock e; write e (save_user e now u)

  -- A soft deletion.
  unfoldable pub delete_user : Uuid → Uuid → Action (Unit {0})
  delete_user tenant id = do
    now ← clock e
    write e λ d. record d {
      users = (e.database.update (is_user tenant id) (mark_deleted now) d.users).0;
    }
