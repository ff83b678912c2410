-- ===== src/Repo/AccountLinks.antt =====
-- The email verifications and password resets of internal/repo/gorm/email.go.
use shieldgate.Base.{
  ℕ, ◌-◌, ◌*◌, Bool, ◌&&◌, ◌==◌, ltb, is_some, not, some, List, Text, text_eq, length, select_rows,
}
use shieldgate.Model.{
  Uuid, Time, wrapped, invalid_verification_code, EmailVerification, PasswordReset,
}
use shieldgate.Effect.{Env, Db, Action, clock, statement, wrap, pure, ◌>>=◌}
use shieldgate.Repo.Statements.{find, write, change, created_time}

abbrev pub has_code_hash : Uuid → Text → EmailVerification → Bool
has_code_hash tenant hash v = v.tenant_id == tenant && text_eq v.code_hash hash

-- `id = ? AND verified_at IS NULL`.
abbrev pub is_unverified : Uuid → EmailVerification → Bool
is_unverified id v = v.id == id && not (is_some v.verified_at)

abbrev pub set_verified : Time → EmailVerification → EmailVerification
set_verified now v = record v { verified_at = some now }

abbrev pub put_verifications : List EmailVerification → Db → Db
put_verifications rows d = record d { email_verifications = rows }

abbrev pub has_reset_hash : Uuid → Text → PasswordReset → Bool
has_reset_hash tenant hash r = r.tenant_id == tenant && text_eq r.token_hash hash

-- `id = ? AND used_at IS NULL`.
abbrev pub is_unused_reset : Uuid → PasswordReset → Bool
is_unused_reset id r = r.id == id && not (is_some r.used_at)

-- `tenant_id = ? AND user_id = ? AND used_at IS NULL`.
abbrev pub is_open_reset : Uuid → Uuid → PasswordReset → Bool
is_open_reset tenant user r = r.tenant_id == tenant && r.user_id == user && not (is_some r.used_at)

abbrev pub set_reset_used : Time → PasswordReset → PasswordReset
set_reset_used now r = record r { used_at = some now }

abbrev pub put_resets : List PasswordReset → Db → Db
put_resets rows d = record d { password_resets = rows }

module _ (e : Env) where
  unfoldable pub create_verification : EmailVerification → Action (Unit {0})
  create_verification v = do
    now ← clock e
    write e λ d. record d {
      email_verifications =
          e.database.insert (record v { created_at = created_time now v.created_at })
            d.email_verifications;
    }

  unfoldable pub get_by_code_hash : Uuid → Text → Action EmailVerification
  get_by_code_hash tenant hash =
      find e (λ d. d.email_verifications) (has_code_hash tenant hash) invalid_verification_code

  unfoldable pub mark_verified : Uuid → Action Bool
  mark_verified id = do
    now ← clock e
    rows ←
        change e (λ d. d.email_verifications) put_verifications (is_unverified id)
          (set_verified now)
    pure (length rows == 1)

  unfoldable pub delete_pending_verifications : Uuid → Uuid → Action (Unit {0})
  delete_pending_verifications tenant user = write e λ d. record d {
    email_verifications =
        e.database.delete
          (λ v. v.tenant_id == tenant && v.user_id == user && not (is_some v.verified_at))
          d.email_verifications;
  }

  unfoldable pub delete_expired_verifications : Action (Unit {0})
  delete_expired_verifications = do
    now ← clock e
    write e λ d. record d {
      email_verifications = e.database.delete (λ v. ltb v.expires_at now) d.email_verifications;
    }

  unfoldable pub create_reset : PasswordReset → Action (Unit {0})
  create_reset r = do
    now ← clock e
    write e λ d. record d {
      password_resets =
          e.database.insert (record r { created_at = created_time now r.created_at })
            d.password_resets;
    }

  unfoldable pub get_by_reset_hash : Uuid → Text → Action PasswordReset
  get_by_reset_hash tenant hash =
      find e (λ d. d.password_resets) (has_reset_hash tenant hash) invalid_verification_code

  unfoldable pub mark_reset_used : Uuid → Action Bool
  mark_reset_used id = do
    now ← clock e
    rows ← change e (λ d. d.password_resets) put_resets (is_unused_reset id) (set_reset_used now)
    pure (length rows == 1)

  -- `CountSince`: the number of rows that the query selects.
  unfoldable pub count_resets_since : Uuid → Uuid → Time → Action ℕ
  count_resets_since tenant user since = wrap wrapped (
      statement e λ d. (
        length (
            select_rows (λ r. r.tenant_id == tenant && r.user_id == user && ltb since r.created_at)
              d.password_resets),
        d,
      ))

  unfoldable pub revoke_unused_resets : Uuid → Uuid → Action (Unit {0})
  revoke_unused_resets tenant user = do
    now ← clock e
    rows ←
        change e (λ d. d.password_resets) put_resets (is_open_reset tenant user)
          (set_reset_used now)
    pure tt

  unfoldable pub delete_expired_resets : Action (Unit {0})
  delete_expired_resets = do
    now ← clock e
    day ← clock e
    write e λ d. record d {
      password_resets =
          e.database.delete
            (λ r. ltb r.expires_at now && ltb r.created_at (day - 86_400 * 1_000_000_000))
            d.password_resets;
    }
