-- ===== src/Model/Grants.antt =====
-- internal/models/models.go: authorization codes, tokens and device codes.
use shieldgate.Base.{ℕ, Bool, Option, List, Text, is_some}
use shieldgate.Model.Basics.{Uuid, Time}

pub record AuthorizationCode : Type 0 where
  pub id : Uuid
  pub tenant_id : Uuid
  pub code : Text
  pub client_id : Uuid
  pub user_id : Uuid
  pub redirect_uri : Text
  pub scope : Text
  pub code_challenge : Text
  pub code_challenge_method : Text
  pub nonce : Text
  pub auth_time : Option Time
  pub amr : List Text
  pub used_at : Option Time
  pub expires_at : Time
  pub created_at : Time

pub record AccessToken : Type 0 where
  pub id : Uuid
  pub tenant_id : Uuid
  pub token : Text
  pub client_id : Uuid
  pub user_id : Uuid
  pub family_id : Uuid
  pub scope : Text
  pub expires_at : Time
  pub created_at : Time

pub record RefreshToken : Type 0 where
  pub id : Uuid
  pub tenant_id : Uuid
  pub token : Text
  pub client_id : Uuid
  pub user_id : Uuid
  pub family_id : Uuid
  pub scope : Text
  pub auth_time : Option Time
  pub amr : List Text
  pub revoked_at : Option Time
  pub expires_at : Time
  pub created_at : Time

-- `RefreshToken.IsRevoked`.
unfoldable pub is_revoked : RefreshToken → Bool
is_revoked rt = is_some rt.revoked_at

-- A status column may hold any text; the three named ones are the program's.
pub data DeviceCodeStatus : Type 0 where
  pending approved denied : DeviceCodeStatus
  other_status : Text → DeviceCodeStatus

pub record DeviceCode : Type 0 where
  pub id : Uuid
  pub tenant_id : Uuid
  pub device_code : Text
  pub user_code : Text
  pub client_id : Uuid
  pub user_id : Option Uuid
  pub scope : Text
  pub status : DeviceCodeStatus
  pub interval : ℕ
  pub last_polled_at : Option Time
  pub auth_time : Option Time
  pub amr : List Text
  pub expires_at : Time
  pub created_at : Time
