-- ===== src/Model/Entities.antt =====
-- internal/models/models.go: clients, users, sessions, consents and second factors.
use shieldgate.Base.{ℕ, Bool, Option, List, Text, is_some}
use shieldgate.Model.Basics.{Uuid, Time}

pub record Client : Type 0 where
  pub id : Uuid
  pub tenant_id : Uuid
  pub client_id : Text
  pub client_secret : Text
  pub name : Text
  pub redirect_uris : List Text
  pub post_logout_redirect_uris : List Text
  pub grant_types : List Text
  pub scopes : List Text
  pub is_public : Bool
  pub token_endpoint_auth_method : Text
  pub dynamically_registered : Bool
  pub registration_access_token : Text
  pub created_at : Time
  pub updated_at : Time
  pub deleted_at : Option Time

pub data UserStatus : Type 0 where
  active locked suspended pending_verification : UserStatus
  other_user_status : Text → UserStatus

-- `Metadata` is kept as the text of its JSON; the `Roles` that gorm can load beside a user are left
-- out, as no modelled code reads them.
pub record User : Type 0 where
  pub id : Uuid
  pub tenant_id : Uuid
  pub username : Text
  pub email : Text
  pub password_hash : Text
  pub status : UserStatus
  pub email_verified : Bool
  pub email_verification_code : Text
  pub email_verification_expires_at : Option Time
  pub phone_number : Text
  pub phone_verified : Bool
  pub first_name : Text
  pub last_name : Text
  pub avatar : Text
  pub locale : Text
  pub timezone : Text
  pub last_login_at : Option Time
  pub last_login_ip : Text
  pub failed_login_attempts : ℕ
  pub locked_at : Option Time
  pub locked_until : Option Time
  pub password_reset_token : Text
  pub password_reset_expires_at : Option Time
  pub metadata : Text
  pub created_at : Time
  pub updated_at : Time
  pub deleted_at : Option Time

pub record Session : Type 0 where
  pub id : Uuid
  pub tenant_id : Uuid
  pub user_id : Uuid
  pub token_hash : Text
  pub auth_time : Time
  pub amr : List Text
  pub ip_address : Text
  pub user_agent : Text
  pub expires_at : Time
  pub created_at : Time

pub record Consent : Type 0 where
  pub id : Uuid
  pub tenant_id : Uuid
  pub user_id : Uuid
  pub client_id : Uuid
  pub scope : Text
  pub created_at : Time
  pub updated_at : Time

pub record UserMfa : Type 0 where
  pub user_id : Uuid
  pub tenant_id : Uuid
  pub totp_secret : Text
  pub confirmed_at : Option Time
  pub last_used_step : ℕ
  pub failed_attempts : ℕ
  pub locked_until : Option Time
  pub created_at : Time
  pub updated_at : Time

-- `UserMFA.Enabled`.
unfoldable pub enabled : UserMfa → Bool
enabled m = is_some m.confirmed_at

pub record MfaRecoveryCode : Type 0 where
  pub id : Uuid
  pub tenant_id : Uuid
  pub user_id : Uuid
  pub code_hash : Text
  pub used_at : Option Time
  pub created_at : Time
