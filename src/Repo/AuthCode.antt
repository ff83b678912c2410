-- ===== src/Repo/AuthCode.antt =====
-- internal/repo/gorm/auth_code.go.
use shieldgate.Base.{Bool, some, List, [], ◌∷◌, Text, text_eq, ◌&&◌, ◌==◌, is_some, not, ltb}
use shieldgate.Model.{Time, Uuid, Result, ok, err, auth_code_not_found, AuthorizationCode}
use shieldgate.Effect.{Db, Env, Action, clock, attempt, throw, ◌>>=◌, pure}
use shieldgate.Repo.Statements.{find, write, change, created_time}

-- What `Consume` returns besides a plain error: the code, or the code with `ErrAuthCodeAlreadyUsed`.
pub data Consumed : Type 0 where
  consumed already_used : AuthorizationCode → Consumed

-- `tenant_id = ? AND code = ?`.
abbrev pub has_code : Uuid → Text → AuthorizationCode → Bool
has_code tenant code c = c.tenant_id == tenant && text_eq c.code code

-- `… AND used_at IS NULL`.
abbrev pub has_unused_code : Uuid → Text → AuthorizationCode → Bool
has_unused_code tenant code c = has_code tenant code c && not (is_some c.used_at)

abbrev pub put_auth_codes : List AuthorizationCode → Db → Db
put_auth_codes rows d = record d { auth_codes = rows }

-- The row as gorm stores it (`autoCreateTime`).
abbrev pub stored : Time → AuthorizationCode → AuthorizationCode
stored now c = record c { created_at = created_time now c.created_at }

abbrev pub mark_used : Time → AuthorizationCode → AuthorizationCode
mark_used now c = record c { used_at = some now }

module _ (e : Env) where
  unfoldable pub create : AuthorizationCode → Action (Unit {0})
  create code = do
    now ← clock e
    write e λ d. record d { auth_codes = e.database.insert (stored now code) d.auth_codes }

  unfoldable pub get_by_code : Uuid → Text → Action AuthorizationCode
  get_by_code tenant code = find e (λ d. d.auth_codes) (has_code tenant code) auth_code_not_found

  -- No row was updated: the code does not exist, or was used before.
  unfoldable pub existing_or_missing : Result AuthorizationCode → Action Consumed
  existing_or_missing (ok existing) = pure (already_used existing)
  existing_or_missing (err _) = throw auth_code_not_found

  unfoldable pub updated_or_reread : Uuid → Text → List AuthorizationCode → Action Consumed
  updated_or_reread tenant code (c ∷ _) = pure (consumed c)
  updated_or_reread tenant code [] = attempt (get_by_code tenant code) >>= existing_or_missing

  unfoldable pub consume : Uuid → Text → Action Consumed
  consume tenant code = do
    now ← clock e
    rows ← change e (λ d. d.auth_codes) put_auth_codes (has_unused_code tenant code) (mark_used now)
    updated_or_reread tenant code rows

  unfoldable pub delete : Uuid → Text → Action (Unit {0})
  delete tenant code =
      write e (λ d. put_auth_codes (e.database.delete (has_code tenant code) d.auth_codes) d)

  unfoldable pub delete_expired : Action (Unit {0})
  delete_expired = do
    now ← clock e
    write e λ d. put_auth_codes (e.database.delete (λ c. ltb c.expires_at now) d.auth_codes) d
