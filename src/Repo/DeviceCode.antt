-- ===== src/Repo/DeviceCode.antt =====
-- internal/repo/gorm/device_code.go.
use shieldgate.Base.{Bool, List, Text, text_eq, ◌&&◌, ◌==◌, ltb, is_cons, if◌then◌else◌}
use shieldgate.Model.{Time, Uuid, device_code_not_found, DeviceCode}
use shieldgate.Effect.{Env, Action, clock, ◌>>=◌}
use shieldgate.Repo.Statements.{find, write, created_time}

-- `tenant_id = ? AND device_code = ?`.
abbrev pub has_device_code : Uuid → Text → DeviceCode → Bool
has_device_code tenant code c = c.tenant_id == tenant && text_eq c.device_code code

-- `tenant_id = ? AND user_code = ?`.
abbrev pub has_user_code : Uuid → Text → DeviceCode → Bool
has_user_code tenant code c = c.tenant_id == tenant && text_eq c.user_code code

-- gorm's `Save`: all columns of the row with this primary key, or a new row if there is none.
unfoldable pub save : Env → DeviceCode → List DeviceCode → List DeviceCode
save e c rows =
    let (after, changed) = e.database.update (λ r. r.id == c.id) (λ _. c) rows in
    if is_cons changed then after else e.database.insert c after

-- The row as gorm stores it (`autoCreateTime`).
abbrev pub stored : Time → DeviceCode → DeviceCode
stored now c = record c { created_at = created_time now c.created_at }

module _ (e : Env) where
  unfoldable pub create : DeviceCode → Action (Unit {0})
  create code = do
    now ← clock e
    write e λ d. record d { device_codes = e.database.insert (stored now code) d.device_codes }

  unfoldable pub get_by_device_code : Uuid → Text → Action DeviceCode
  get_by_device_code tenant code =
      find e (λ d. d.device_codes) (has_device_code tenant code) device_code_not_found

  unfoldable pub get_by_user_code : Uuid → Text → Action DeviceCode
  get_by_user_code tenant code =
      find e (λ d. d.device_codes) (has_user_code tenant code) device_code_not_found

  unfoldable pub update : DeviceCode → Action (Unit {0})
  unfolding save
  update code = write e (λ d. record d { device_codes = save e code d.device_codes })

  unfoldable pub delete : Uuid → Text → Action (Unit {0})
  delete tenant code = write e λ d. record d {
    device_codes = e.database.delete (has_device_code tenant code) d.device_codes;
  }

  unfoldable pub delete_expired : Action (Unit {0})
  delete_expired = do
    now ← clock e
    write e λ d. record d {
      device_codes = e.database.delete (λ c. ltb c.expires_at now) d.device_codes;
    }
