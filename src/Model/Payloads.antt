-- ===== src/Model/Payloads.antt =====
-- internal/models/models.go: responses, token claims and token events.
use shieldgate.Base.{ℕ, Bool, Option, List, Text}
use shieldgate.Model.Basics.{Uuid, Time}

pub record DeviceAuthorizationResponse : Type 0 where
  pub device_code : Text
  pub user_code : Text
  pub verification_uri : Text
  pub verification_uri_complete : Text
  pub expires_in : ℕ
  pub interval : ℕ

pub record TokenResponse : Type 0 where
  pub access_token : Text
  pub token_type : Text
  pub expires_in : ℕ
  pub refresh_token : Text
  pub id_token : Text
  pub scope : Text

pub record TokenExchangeResponse : Type 0 where
  pub access_token : Text
  pub issued_token_type : Text
  pub token_type : Text
  pub expires_in : ℕ
  pub scope : Text

pub record IntrospectionResponse : Type 0 where
  pub active : Bool
  pub scope : Text
  pub client_id : Text
  pub token_type : Text
  pub sub : Text
  pub user_id : Text
  pub exp : ℕ
  pub iat : ℕ
  pub iss : Text

pub record UserInfo : Type 0 where
  pub sub : Text
  pub name : Text
  pub given_name : Text
  pub family_name : Text
  pub preferred_username : Text
  pub picture : Text
  pub locale : Text
  pub zoneinfo : Text
  pub updated_at : ℕ
  pub email : Text
  pub email_verified : Option Bool
  pub phone_number : Text
  pub phone_number_verified : Option Bool

pub record IdTokenParams : Type 0 where
  pub client_id : Text
  pub scope : Text
  pub nonce : Text
  pub auth_time : Option Time
  pub amr : List Text
  pub access_token : Text

pub record IdTokenClaims : Type 0 where
  pub user_info : UserInfo
  pub iss : Text
  pub aud : Text
  pub exp : ℕ
  pub iat : ℕ
  pub auth_time : ℕ
  pub amr : List Text
  pub nonce : Text
  pub at_hash : Text
  pub tenant_id : Text

-- `act` is the subject of the actor claim of a token exchange.
pub record JwtClaims : Type 0 where
  pub jti : Text
  pub sub : Text
  pub aud : Text
  pub iss : Text
  pub exp : ℕ
  pub iat : ℕ
  pub tenant_id : Text
  pub scope : Text
  pub client_id : Text
  pub user_id : Text
  pub email : Text
  pub name : Text
  pub act : Option Text

pub data TokenEventType : Type 0 where
  issued revoked reuse_detected : TokenEventType

pub record TokenEvent : Type 0 where
  pub type : TokenEventType
  pub tenant_id : Uuid
  pub client_id : Uuid
  pub user_id : Option Uuid
  pub grant_type : Text
  pub scope : Text
  pub family_id : Uuid
  pub credential : Text
  pub actor : Text
