-- ===== src/Model/Accounts.antt =====
-- internal/models/models.go: account emails, initial access tokens and idempotency keys, with
-- the requests that change accounts. The `Relationships` that gorm can load are left out.
use shieldgate.Base.{
  ℕ, Bool, true, false, ◌||◌, Option, none, some, List, Text, ltb, is_cons, ◌++◌, ◌∷◌,
  if◌then◌else◌,
}
use shieldgate.Model.Basics.{Uuid, Time}
use shieldgate.Model.Entities.{User, UserStatus, locked, suspended, pending_verification}

pub record EmailVerification : Type 0 where
  pub id : Uuid
  pub tenant_id : Uuid
  pub user_id : Uuid
  pub email : Text
  pub code_hash : Text
  pub expires_at : Time
  pub verified_at : Option Time
  pub created_at : Time

pub record PasswordReset : Type 0 where
  pub id : Uuid
  pub tenant_id : Uuid
  pub user_id : Uuid
  pub token_hash : Text
  pub expires_at : Time
  pub used_at : Option Time
  pub created_at : Time

pub record CreateUserRequest : Type 0 where
  pub username : Text
  pub email : Text
  pub password : Text

pub record UpdateUserRequest : Type 0 where
  pub username : Text
  pub email : Text
  pub password : Text

pub record InitialAccessToken : Type 0 where
  pub id : Uuid
  pub tenant_id : Uuid
  pub token_hash : Text
  pub description : Text
  pub scopes : List Text
  pub max_uses : ℕ
  pub uses : ℕ
  pub created_by : Option Uuid
  pub expires_at : Time
  pub revoked_at : Option Time
  pub created_at : Time

pub record IdempotencyKey : Type 0 where
  pub id : Uuid
  pub tenant_id : Uuid
  pub principal : Text
  pub key : Text
  pub method : Text
  pub path : Text
  pub request_hash : Text
  pub status_code : ℕ
  pub response_content_type : Text
  pub response_body : Text
  pub created_at : Time
  pub expires_at : Time

abbrev pub is_locked_status : UserStatus → Bool
is_locked_status locked = true
is_locked_status _ = false

-- `User.IsSuspended`.
abbrev pub is_suspended : UserStatus → Bool
is_suspended suspended = true
is_suspended _ = false

abbrev pub is_pending_status : UserStatus → Bool
is_pending_status pending_verification = true
is_pending_status _ = false

abbrev before_end : Option Time → Time → Bool
before_end none now = false
before_end (some end) now = ltb now end

-- `User.IsLocked`, at the time that it reads.
unfoldable pub is_user_locked : Time → User → Bool
is_user_locked now u = is_locked_status u.status || before_end u.locked_until now

-- `User.GetFullName`.
unfoldable pub full_name : User → Text
full_name u =
    if is_cons u.first_name
    then (if is_cons u.last_name then u.first_name ++ (b' ' ∷ u.last_name) else u.first_name)
    else (if is_cons u.last_name then u.last_name else u.username)
