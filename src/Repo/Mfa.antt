-- ===== src/Repo/Mfa.antt =====
-- internal/repo/gorm/mfa.go. A transaction is one statement: it is applied wholly or not at all, and
-- the rows that it locks are its own until it ends.
use shieldgate.Base.{
  ℕ, ◌+◌, ◌==◌, ltb, leb, Bool, true, false, not, ◌&&◌, none, some, List, Text, length, is_some,
  is_cons, text_eq, if◌then◌else◌,
}
use shieldgate.Model.{Uuid, Time, wrapped, mfa_not_enabled, UserMfa, MfaRecoveryCode}
use shieldgate.Effect.{Db, Env, Action, clock, statement, wrap, pure, ◌>>=◌}
use shieldgate.Repo.Statements.{find, write, change}

abbrev pub is_settings : Uuid → Uuid → UserMfa → Bool
is_settings tenant user m = m.tenant_id == tenant && m.user_id == user

-- `… AND confirmed_at IS NOT NULL AND last_used_step < ?`.
abbrev pub has_older_step : Uuid → Uuid → ℕ → UserMfa → Bool
has_older_step tenant user step m =
    is_settings tenant user m && is_some m.confirmed_at && ltb m.last_used_step step

abbrev pub set_step : ℕ → Time → UserMfa → UserMfa
set_step step now m = record m {
  last_used_step = step;
  failed_attempts = 0;
  locked_until = none;
  updated_at = now;
}

abbrev pub owns_code : Uuid → Uuid → MfaRecoveryCode → Bool
owns_code tenant user c = c.tenant_id == tenant && c.user_id == user

-- `… AND code_hash = ? AND used_at IS NULL`.
abbrev pub has_unused_hash : Uuid → Uuid → Text → MfaRecoveryCode → Bool
has_unused_hash tenant user hash c =
    owns_code tenant user c && text_eq c.code_hash hash && not (is_some c.used_at)

abbrev pub mark_code_used : Time → MfaRecoveryCode → MfaRecoveryCode
mark_code_used now c = record c { used_at = some now }

abbrev pub clear_failures : Time → UserMfa → UserMfa
clear_failures now m = record m { failed_attempts = 0; locked_until = none; updated_at = now }

-- `failed_attempts + 1`, and the lock from `max_failures` on.
abbrev pub count_failure : ℕ → Time → Time → UserMfa → UserMfa
count_failure max_failures lock_until now m = record m {
  failed_attempts = m.failed_attempts + 1;
  locked_until =
      if leb max_failures (m.failed_attempts + 1) then some lock_until else m.locked_until;
  updated_at = now;
}

abbrev pub put_settings : List UserMfa → Db → Db
put_settings rows d = record d { user_mfa = rows }

module _ (e : Env) (tenant user : Uuid) where
  unfoldable pub get_mfa : Action UserMfa
  get_mfa = find e (λ d. d.user_mfa) (is_settings tenant user) mfa_not_enabled

  -- `UseStep`.
  unfoldable pub use_step : ℕ → Action Bool
  use_step step = do
    now ← clock e
    rows ←
        change e (λ d. d.user_mfa) put_settings (has_older_step tenant user step)
          (set_step step now)
    pure (length rows == 1)

  -- The transaction of `UseRecoveryCode`, and whether it used the code.
  unfoldable pub spend_code : Text → Time → Time → Db → Bool × Db
  spend_code hash used cleared d =
      let (codes, changed) =
        e.database.update (has_unused_hash tenant user hash) (mark_code_used used)
          d.recovery_codes in
      let (settings, _) =
        e.database.update (is_settings tenant user) (clear_failures cleared) d.user_mfa in
      if is_cons changed
      then (true, record d { recovery_codes = codes; user_mfa = settings })
      else (false, record d { recovery_codes = codes })

  -- `UseRecoveryCode`.
  unfoldable pub use_recovery_code : Text → Action Bool
  use_recovery_code hash = do
    used ← clock e
    cleared ← clock e
    wrap wrapped (statement e (spend_code hash used cleared))

  -- `RecordFailure`.
  unfoldable pub record_failure : ℕ → Time → Action (Unit {0})
  record_failure max_failures lock_until = do
    now ← clock e
    rows ←
        change e (λ d. d.user_mfa) put_settings (is_settings tenant user)
          (count_failure max_failures lock_until now)
    pure tt

  -- `Delete`.
  unfoldable pub delete_mfa : Action (Unit {0})
  delete_mfa = write e λ d. record d {
    recovery_codes = e.database.delete (owns_code tenant user) d.recovery_codes;
    user_mfa = e.database.delete (is_settings tenant user) d.user_mfa;
  }
