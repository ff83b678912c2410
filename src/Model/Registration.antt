-- ===== src/Model/Registration.antt =====
-- internal/models/models.go: the requests and responses of client management and registration.
use shieldgate.Base.{ℕ, Bool, Option, List, Text}

pub record CreateClientRequest : Type 0 where
  pub name : Text
  pub redirect_uris : List Text
  pub post_logout_redirect_uris : List Text
  pub grant_types : List Text
  pub scopes : List Text
  pub is_public : Bool

-- A nil list or flag is `none` where the code tells it from an empty one.
pub record UpdateClientRequest : Type 0 where
  pub name : Text
  pub redirect_uris : List Text
  pub post_logout_redirect_uris : Option (List Text)
  pub grant_types : List Text
  pub scopes : List Text
  pub is_public : Option Bool

pub record ClientMetadata : Type 0 where
  pub client_id : Text
  pub redirect_uris : List Text
  pub post_logout_redirect_uris : List Text
  pub token_endpoint_auth_method : Text
  pub grant_types : List Text
  pub response_types : List Text
  pub client_name : Text
  pub scope : Text

pub record ClientRegistrationResponse : Type 0 where
  pub metadata : ClientMetadata
  pub client_id : Text
  pub client_secret : Text
  pub client_id_issued_at : ℕ
  pub client_secret_expires_at : Option ℕ
  pub registration_access_token : Text
  pub registration_client_uri : Text

-- `ExpiresIn` and `MaxUses` are 64-bit integers, as their bit patterns: a negative number is 2 ^ 63 or more.
pub record CreateInitialAccessTokenRequest : Type 0 where
  pub description : Text
  pub scopes : List Text
  pub expires_in : ℕ
  pub max_uses : ℕ
