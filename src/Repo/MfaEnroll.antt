-- ===== src/Repo/MfaEnroll.antt =====
-- internal/repo/gorm/mfa.go: enrollment and recovery codes. A transaction is one statement; the
-- identifiers and times of its rows are taken before it.
use shieldgate.Base.{
  ℕ, Bool, true, false, not, ◌&&◌, ◌==◌, Option, none, some, List, [], ◌∷◌, Text, is_some, is_cons,
  length, select_rows, if◌then◌else◌,
}
use shieldgate.Model.{
  Uuid, Time, wrapped, mfa_not_enrolling, mfa_already_enabled, UserMfa, MfaRecoveryCode,
}
use shieldgate.Effect.{Db, Env, Action, clock, fresh_uuid, statement, wrap, guard, pure, ◌>>=◌}
use shieldgate.Repo.Statements.{write}
use shieldgate.Repo.Mfa.{is_settings, owns_code}

-- `… AND confirmed_at IS NULL`.
abbrev pub is_unconfirmed : Uuid → Uuid → UserMfa → Bool
is_unconfirmed tenant user m = is_settings tenant user m && not (is_some m.confirmed_at)

abbrev pub confirm_with : ℕ → Time → Time → UserMfa → UserMfa
confirm_with step confirmed now m = record m {
  confirmed_at = some confirmed;
  last_used_step = step;
  failed_attempts = 0;
  locked_until = none;
  updated_at = now;
}

-- The columns that the update of `SavePending` assigns.
abbrev pub replace_pending : UserMfa → UserMfa → UserMfa
replace_pending m old = record old {
  totp_secret = m.totp_secret;
  last_used_step = m.last_used_step;
  failed_attempts = m.failed_attempts;
  locked_until = m.locked_until;
  created_at = m.created_at;
  updated_at = m.updated_at;
}

module _ (e : Env) where
  abbrev put_pending : Option UserMfa → UserMfa → Db → Bool × Db
  put_pending none m d = (true, record d { user_mfa = e.database.insert m d.user_mfa })
  put_pending (some _) m d =
      let (rows, changed) =
        e.database.update (λ r. r.user_id == m.user_id && is_unconfirmed m.tenant_id r.user_id r)
          (replace_pending m) d.user_mfa in
      (is_cons changed, record d { user_mfa = rows })

  -- The statement of `SavePending`, on the user's row: whether it wrote one.
  unfoldable pub save_row_pending : UserMfa → Db → Bool × Db
  save_row_pending m d = put_pending (e.database.first (λ r. r.user_id == m.user_id) d.user_mfa) m d

  -- `SavePending`.
  unfoldable pub save_pending : UserMfa → Action (Unit {0})
  save_pending m = do
    now ← clock e
    saved ← wrap wrapped (
        statement e
          (save_row_pending (record m { confirmed_at = none; created_at = now; updated_at = now })))
    guard saved mfa_already_enabled

  -- `tx.Create` of the new codes.
  unfoldable pub insert_codes : List MfaRecoveryCode → List MfaRecoveryCode → List MfaRecoveryCode
  insert_codes [] rows = rows
  insert_codes (c ∷ codes) rows = e.database.insert c (insert_codes codes rows)

  module _ (tenant user : Uuid) where
    -- `replaceRecoveryCodes` in its transaction.
    unfoldable pub replaced_codes : List MfaRecoveryCode → Db → Db
    unfolding insert_codes
    replaced_codes codes d = record d {
      recovery_codes =
          insert_codes codes (e.database.delete (owns_code tenant user) d.recovery_codes);
    }

    -- The rows of the new codes.
    unfoldable pub code_rows : Time → List Text → Action (List MfaRecoveryCode)
    code_rows now [] = pure []
    code_rows now (hash ∷ hashes) = do
      id ← fresh_uuid e
      rows ← code_rows now hashes
      pure (
          record {
            id = id;
            tenant_id = tenant;
            user_id = user;
            code_hash = hash;
            used_at = none;
            created_at = now;
          }
          ∷ rows)

    -- The transaction of `Confirm`: whether there was an enrollment to confirm.
    unfoldable pub confirm_row : ℕ → Time → Time → List MfaRecoveryCode → Db → Bool × Db
    unfolding replaced_codes
    confirm_row step confirmed now codes d =
        let (rows, changed) =
          e.database.update (is_unconfirmed tenant user) (confirm_with step confirmed now)
            d.user_mfa in
        if is_cons changed
        then (true, replaced_codes codes (record d { user_mfa = rows }))
        else (false, d)

    -- `Confirm`.
    unfoldable pub confirm_mfa : ℕ → List Text → Action (Unit {0})
    confirm_mfa step hashes = do
      confirmed ← clock e
      updated ← clock e
      now ← clock e
      codes ← code_rows now hashes
      done ← wrap wrapped (statement e (confirm_row step confirmed updated codes))
      guard done mfa_not_enrolling

    -- `ReplaceRecoveryCodes`.
    unfoldable pub replace_recovery_codes : List Text → Action (Unit {0})
    unfolding replaced_codes
    replace_recovery_codes hashes = do
      now ← clock e
      codes ← code_rows now hashes
      write e (replaced_codes codes)

    -- `CountUnusedRecoveryCodes`.
    unfoldable pub count_unused_codes : Action ℕ
    count_unused_codes = wrap wrapped (
        statement e λ d. (
          length (
              select_rows (λ c. owns_code tenant user c && not (is_some c.used_at))
                d.recovery_codes),
          d,
        ))
