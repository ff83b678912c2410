-- ===== src/Users/Links.antt =====
-- The links sent by email of internal/services/user_service_impl.go: verification of an address and
-- reset of a password. The log lines are left out; the repositories are configured.
use shieldgate.Base.{
  ℕ, ◌+◌, ◌-◌, ◌*◌, leb, Bool, true, false, not, ◌&&◌, none, [], ◌∷◌, ◌++◌, Text, codes, is_cons,
  is_some, len, text_eq, if◌then◌else◌,
}
use shieldgate.Model.{
  Uuid, Time, Error, wrapped, Result, ok, err, is_expired, user_not_found, user_suspended,
  emails_unavailable, email_already_verified, invalid_verification_code, verification_expired,
  password_too_short, User, active, EmailVerification, PasswordReset, is_suspended,
  is_locked_status, is_pending_status,
}
use shieldgate.Effect.{
  Env, Action, clock, fresh_uuid, random_token, attempt, wrap, throw, pure, guard, ◌>>=◌, ◌>>◌,
}
use shieldgate.Repo.AccessToken
use shieldgate.Repo.RefreshToken
use shieldgate.Repo.Accounts.{get_user}
use shieldgate.Repo.User.{get_by_email, update_user}
use shieldgate.Repo.AccountLinks.{
  create_verification, get_by_code_hash, mark_verified, delete_pending_verifications, create_reset,
  get_by_reset_hash, mark_reset_used, count_resets_since, revoke_unused_resets,
}
use shieldgate.Users.Service.{
  end_sessions, hash_password, send_template, notify_password_changed, display_name,
}

abbrev pub email_verification_duration : Time
email_verification_duration = 86_400 * 1_000_000_000

abbrev pub password_reset_duration : Time
password_reset_duration = 3600 * 1_000_000_000

abbrev pub max_password_resets_per_hour : ℕ
max_password_resets_per_hour = 3

abbrev pub min_password_length : ℕ
min_password_length = 8

-- `strings.TrimSuffix(baseURL, "/")`.
unfoldable pub trim_slash : Text → Text
trim_slash [] = []
trim_slash (c ∷ []) = if text_eq (c ∷ []) (codes "/") then [] else c ∷ []
trim_slash (c ∷ (d ∷ s)) = c ∷ trim_slash (d ∷ s)

-- `errors.Is(err, ErrUserNotFound)`.
unfoldable pub is_unknown_user : Error → Bool
is_unknown_user user_not_found = true
is_unknown_user (wrapped x) = is_unknown_user x
is_unknown_user _ = false

-- What a verified link stores.
abbrev pub verified : Time → User → User
verified now u = record u {
  email_verified = true;
  status = if is_pending_status u.status then active else u.status;
  updated_at = now;
}

-- A lock with an end was set by failed logins, and is lifted; an administrator's lock stays.
abbrev pub lift_lock : User → User
lift_lock u =
    if is_locked_status u.status && is_some u.locked_until
    then record u { status = active; locked_at = none; locked_until = none }
    else u

-- What a reset stores.
abbrev pub reset_to : Time → Text → User → User
reset_to now hash u =
    record (lift_lock (record u { password_hash = hash; failed_login_attempts = 0 })) {
      updated_at = now;
    }

module _ (e : Env) (tenant : Uuid) where
  -- The address of a link's page, with its code or token.
  unfoldable pub link_to : Text → Text → Text
  unfolding trim_slash
  link_to page token = trim_slash e.config.server_url ++ (page ++ e.query_escape token)

  -- `SendVerificationEmail`.
  unfoldable pub send_verification_email : Uuid → Action (Unit {0})
  send_verification_email user = do
    guard e.config.has_emails emails_unavailable
    u ← get_user e tenant user
    guard (not u.email_verified) email_already_verified
    code ← wrap wrapped (random_token e 32)
    delete_pending_verifications e tenant user
    id ← fresh_uuid e
    now ← clock e
    create_verification e (record {
      id = id;
      tenant_id = tenant;
      user_id = user;
      email = u.email;
      code_hash = e.sha256_base64 code;
      expires_at = now + email_verification_duration;
      verified_at = none;
      created_at = 0;
    })
    wrap wrapped (
        send_template e tenant u (codes "email_verification")
          (display_name u ∷ link_to (codes "/account/verify-email?code=") code ∷ codes "24" ∷ []))

  -- The claim of `VerifyEmail`, and the user that it activates.
  unfoldable pub confirm_email : EmailVerification → User → Action User
  confirm_email v u = do
    claimed ← mark_verified e v.id
    guard claimed invalid_verification_code
    now ← clock e
    wrap wrapped (update_user e (verified now u))
    pure (verified now u)

  -- `VerifyEmail`.
  unfoldable pub verify_email : Text → Action User
  verify_email code = do
    guard (is_cons code) invalid_verification_code
    v ← get_by_code_hash e tenant (e.sha256_base64 code)
    guard (not (is_some v.verified_at)) invalid_verification_code
    now ← clock e
    guard (not (is_expired now v.expires_at)) verification_expired
    u ← get_user e tenant v.user_id
    guard (e.equal_fold u.email v.email) invalid_verification_code
    confirm_email v u

  -- A new link, after which the older ones no longer work.
  unfoldable pub send_reset_link : User → Action (Unit {0})
  send_reset_link u = do
    token ← wrap wrapped (random_token e 32)
    revoke_unused_resets e tenant u.id
    id ← fresh_uuid e
    now ← clock e
    create_reset e (record {
      id = id;
      tenant_id = tenant;
      user_id = u.id;
      token_hash = e.sha256_base64 token;
      expires_at = now + password_reset_duration;
      used_at = none;
      created_at = 0;
    })
    wrap wrapped (
        send_template e tenant u (codes "password_reset") (
          display_name u
          ∷ link_to (codes "/account/reset-password?token=") token
          ∷ codes "60"
          ∷ []))

  unfoldable pub reset_unless_limited : User → Action (Unit {0})
  reset_unless_limited u = do
    now ← clock e
    recent ← count_resets_since e tenant u.id (now - 3600 * 1_000_000_000)
    if leb max_password_resets_per_hour recent then pure tt else send_reset_link u

  unfoldable pub reset_for : Result User → Action (Unit {0})
  reset_for (ok u) = if is_suspended u.status then pure tt else reset_unless_limited u
  reset_for (err x) = if is_unknown_user x then pure tt else throw x

  -- `RequestPasswordReset`: nothing tells an unknown address from a known one.
  unfoldable pub request_password_reset : Text → Action (Unit {0})
  request_password_reset email =
      guard e.config.has_emails emails_unavailable
      >> (attempt (get_by_email e tenant email) >>= reset_for)

  -- `revokeUserCredentials`.
  unfoldable pub revoke_user_credentials : Uuid → Action (Unit {0})
  revoke_user_credentials user = do
    end_sessions e tenant user
    wrap wrapped (AccessToken.delete_by_user_id e tenant user)
    wrap wrapped (RefreshToken.delete_by_user_id e tenant user)

  -- What follows the claim of a reset.
  unfoldable pub finish_reset : Text → User → Action User
  finish_reset hash u = do
    now ← clock e
    wrap wrapped (update_user e (reset_to now hash u))
    revoke_user_credentials u.id
    revoked ← attempt (revoke_unused_resets e tenant u.id)
    notify_password_changed e tenant (reset_to now hash u)
    pure (reset_to now hash u)

  -- The checks of `ResetPassword` on a reset that was found.
  unfoldable pub reset_found : Text → PasswordReset → Action User
  reset_found password r = do
    guard (not (is_some r.used_at)) invalid_verification_code
    now ← clock e
    guard (not (is_expired now r.expires_at)) verification_expired
    u ← get_user e tenant r.user_id
    guard (not (is_suspended u.status)) user_suspended
    hash ← hash_password e tenant password
    claimed ← mark_reset_used e r.id
    guard claimed invalid_verification_code
    finish_reset hash u

  -- `ResetPassword`.
  unfoldable pub reset_password : Text → Text → Action User
  reset_password token password = do
    guard (leb min_password_length (len password)) password_too_short
    guard (is_cons token) invalid_verification_code
    r ← get_by_reset_hash e tenant (e.sha256_base64 token)
    reset_found password r
