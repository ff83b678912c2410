-- ===== src/Users/Service.antt =====
-- Accounts, login and passwords of internal/services/user_service_impl.go. The log lines are left out;
-- the session repository is configured.
use shieldgate.Base.{
  ◌+◌, ◌*◌, ℕ, leb, Bool, true, false, not, ◌&&◌, ◌||◌, Option, none, some, List, [], ◌∷◌, Text,
  codes, is_cons, text_eq, if◌then◌else◌,
}
use shieldgate.Model.{
  Uuid, Time, wrapped, refused, Result, ok, err, invalid_credentials, user_locked, User, UserStatus,
  active, locked, other_user_status, CreateUserRequest, UpdateUserRequest, is_user_locked,
  is_locked_status, is_suspended, full_name,
}
use shieldgate.Effect.{
  Env, Action, clock, fresh_uuid, outside, attempt, wrap, throw, pure, guard, ◌>>=◌, ◌>>◌,
}
use shieldgate.Repo.Accounts.{get_user}
use shieldgate.Repo.User.{create_user_row, get_by_email, get_by_username, update_user, delete_user}
use shieldgate.Repo.Session.{delete_sessions_of}

abbrev pub max_login_attempts : ℕ
max_login_attempts = 5

-- Thirty minutes.
abbrev pub lockout_duration : Time
lockout_duration = 1800 * 1_000_000_000

abbrev is_ok : {A : Type 0} → Result A → Bool
is_ok (ok _) = true
is_ok (err _) = false

-- What a successful login stores.
abbrev pub logged_in : Time → Text → User → User
logged_in now ip u = record u {
  failed_login_attempts = 0;
  last_login_at = some now;
  last_login_ip = ip;
  locked_at = none;
  locked_until = none;
  status = if is_locked_status u.status then active else u.status;
  updated_at = now;
}

abbrev counted : Time → User → User
counted now u = record u { failed_login_attempts = u.failed_login_attempts + 1; updated_at = now }

abbrev pub lock_until : Time → Option Time → User → User
lock_until now until u = record u {
  status = locked;
  locked_at = some now;
  locked_until = until;
  updated_at = now;
}

-- What a failed login stores.
abbrev pub failed_login : Time → User → User
failed_login now u =
    if leb max_login_attempts (counted now u).failed_login_attempts
    then lock_until now (some (now + lockout_duration)) (counted now u)
    else counted now u

abbrev sent : Bool → Option (Unit {0})
sent true = some tt
sent false = none

-- `displayName`.
unfoldable pub display_name : User → Text
unfolding full_name
display_name u =
    if is_cons (full_name u)
    then full_name u
    else (if is_cons u.username then u.username else u.email)

module _ (e : Env) (tenant : Uuid) where
  -- `endSessions`.
  unfoldable pub end_sessions : Uuid → Action (Unit {0})
  end_sessions user = wrap wrapped (delete_sessions_of e tenant user)

  -- `GenerateFromPassword`.
  unfoldable pub hash_password : Text → Action Text
  hash_password password = wrap wrapped (outside e (λ k. e.bcrypt_hash k password))

  abbrev new_user : Uuid → CreateUserRequest → Text → User
  new_user id req hash = record {
    id = id;
    tenant_id = tenant;
    username = req.username;
    email = req.email;
    password_hash = hash;
    status = other_user_status [];
    email_verified = false;
    email_verification_code = [];
    email_verification_expires_at = none;
    phone_number = [];
    phone_verified = false;
    first_name = [];
    last_name = [];
    avatar = [];
    locale = [];
    timezone = [];
    last_login_at = none;
    last_login_ip = [];
    failed_login_attempts = 0;
    locked_at = none;
    locked_until = none;
    password_reset_token = [];
    password_reset_expires_at = none;
    metadata = [];
    created_at = 0;
    updated_at = 0;
    deleted_at = none;
  }

  -- `Create`. The name and the address are looked up first; any error of a lookup counts as free.
  unfoldable pub create_user : CreateUserRequest → Action User
  create_user req = do
    guard (is_cons req.username) (refused (codes "username is required"))
    guard (is_cons req.email) (refused (codes "email is required"))
    guard (is_cons req.password) (refused (codes "password is required"))
    named ← attempt (get_by_username e tenant req.username)
    guard (not (is_ok named)) (refused (codes "username already exists"))
    mailed ← attempt (get_by_email e tenant req.email)
    guard (not (is_ok mailed)) (refused (codes "email already exists"))
    hash ← hash_password req.password
    id ← fresh_uuid e
    wrap wrapped (create_user_row e (new_user id req hash))

  -- The new name of `Update`.
  unfoldable pub renamed : UpdateUserRequest → User → Action User
  renamed req u =
      if is_cons req.username && not (text_eq req.username u.username)
      then (do
        named ← attempt (get_by_username e tenant req.username)
        guard (not (is_ok named)) (refused (codes "username already exists"))
        pure (record u { username = req.username }))
      else pure u

  -- The new address of `Update`.
  unfoldable pub readdressed : UpdateUserRequest → User → Action User
  readdressed req u =
      if is_cons req.email && not (text_eq req.email u.email)
      then (do
        mailed ← attempt (get_by_email e tenant req.email)
        guard (not (is_ok mailed)) (refused (codes "email already exists"))
        pure (record u { email = req.email }))
      else pure u

  -- The new password of `Update`.
  unfoldable pub rehashed : UpdateUserRequest → User → Action User
  rehashed req u =
      if is_cons req.password
      then (hash_password req.password >>= (λ hash. pure (record u { password_hash = hash })))
      else pure u

  -- `Update`.
  unfoldable pub update_account : Uuid → UpdateUserRequest → Action User
  update_account user req = do
    u ← get_user e tenant user
    named ← renamed req u
    mailed ← readdressed req named
    changed ← rehashed req mailed
    wrap wrapped (update_user e changed)
    if is_cons req.password then end_sessions user else pure tt
    pure changed

  -- `Delete`.
  unfoldable pub delete_account : Uuid → Action (Unit {0})
  delete_account user = do
    u ← get_user e tenant user
    wrap wrapped (delete_user e tenant user)
    end_sessions user

  -- `UpdateStatus`, which `SuspendUser` and `ActivateUser` call.
  unfoldable pub update_status : Uuid → UserStatus → Action (Unit {0})
  update_status user status = do
    u ← get_user e tenant user
    now ← clock e
    update_user e (record u { status = status; updated_at = now })
    if is_suspended status || is_locked_status status then end_sessions user else pure tt

  -- `LockUser`.
  unfoldable pub lock_user : Uuid → Option Time → Action (Unit {0})
  lock_user user until = do
    u ← get_user e tenant user
    now ← clock e
    update_user e (lock_until now until u)
    end_sessions user

  abbrev unlocked : Time → User → User
  unlocked now u = record u {
    status = active;
    failed_login_attempts = 0;
    locked_at = none;
    locked_until = none;
    updated_at = now;
  }

  -- `UnlockUser`.
  unfoldable pub unlock_user : Uuid → Action (Unit {0})
  unlock_user user = do u ← get_user e tenant user; now ← clock e; update_user e (unlocked now u)

  unfoldable pub record_found : Text → Bool → Result User → Action (Unit {0})
  record_found ip success (err _) = pure tt
  record_found ip success (ok u) = do
    now ← clock e
    update_user e (if success then logged_in now ip u else failed_login now u)

  -- `RecordLoginAttempt`.
  unfoldable pub record_login_attempt : Text → Text → Bool → Action (Unit {0})
  record_login_attempt email ip success =
      attempt (get_by_email e tenant email) >>= record_found ip success

  -- The password check of `Authenticate`; a failure to record the attempt is ignored.
  unfoldable pub check_password : Text → Text → User → Action User
  check_password email password u =
      if e.bcrypt_matches u.password_hash password
      then attempt (record_login_attempt email [] true) >> pure u
      else attempt (record_login_attempt email [] false) >> throw invalid_credentials

  -- `Authenticate`.
  unfoldable pub authenticate : Text → Text → Action User
  authenticate email password = do
    u ← wrap (λ _. invalid_credentials) (get_by_email e tenant email)
    now ← clock e
    guard (not (is_user_locked now u)) user_locked
    check_password email password u

  -- `SendTemplateEmail`: the template, the address and the values that are filled in.
  unfoldable pub send_template : User → Text → List Text → Action (Unit {0})
  send_template u template values =
      outside e (λ k. sent (e.send_email k u.tenant_id u.email template values))

  -- `notifyPasswordChanged`: a failure is only logged.
  unfoldable pub notify_password_changed : User → Action (Unit {0})
  notify_password_changed u =
      if e.config.has_emails
      then attempt (send_template u (codes "password_changed") (display_name u ∷ [])) >> pure tt
      else pure tt

  -- `ChangePassword`.
  unfoldable pub change_password : Uuid → Text → Text → Action (Unit {0})
  change_password user old new = do
    u ← get_user e tenant user
    guard (e.bcrypt_matches u.password_hash old) invalid_credentials
    hash ← hash_password new
    wrap wrapped (update_user e (record u { password_hash = hash }))
    end_sessions user
    notify_password_changed u
