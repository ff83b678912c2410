-- ===== src/Effect/Outside.antt =====
-- The tables, and what the code calls that is not in the repository, as a record of functions: gorm
-- with PostgreSQL, package time, crypto/rand, crypto/sha256, google/uuid, the ciphers and MACs of the
-- second factor, and the signing keys of internal/jwtkeys over golang-jwt.
use shieldgate.Base.{
  ℕ, ◌≡◌, Bool, true, false, Option, none, some, List, ◌∷◌, map, Text, All, Any, select_rows,
  update_rows, delete_rows,
}
use shieldgate.Model.{
  Uuid, Time, Client, User, Session, Consent, UserMfa, MfaRecoveryCode, AuthorizationCode,
  AccessToken, RefreshToken, DeviceCode, EmailVerification, PasswordReset, InitialAccessToken,
  IdempotencyKey, IdTokenClaims, JwtClaims, TokenEvent, Json,
}

-- The rows of each table, in no particular order.
pub record Db : Type 0 where
  pub clients : List Client
  pub users : List User
  pub auth_codes : List AuthorizationCode
  pub access_tokens : List AccessToken
  pub refresh_tokens : List RefreshToken
  pub device_codes : List DeviceCode
  pub sessions : List Session
  pub consents : List Consent
  pub user_mfa : List UserMfa
  pub recovery_codes : List MfaRecoveryCode
  pub email_verifications : List EmailVerification
  pub password_resets : List PasswordReset
  pub initial_access_tokens : List InitialAccessToken
  pub idempotency_keys : List IdempotencyKey

-- What `First` may return: no row if none matches, and some matching row otherwise.
abbrev pub Selects : {A : Type 0} → (A → Bool) → List A → Option A → Type 0
Selects p rows none = All (λ r. p r ≡ false) rows
Selects p rows (some a) = (p a ≡ true) × Any (λ r. r ≡ a) rows

-- The SQL statements that gorm sends. An update also returns the rows that it changed, as changed.
pub record Database : Type 1 where
  pub first : {A : Type 0} → (A → Bool) → List A → Option A
  pub insert : {A : Type 0} → A → List A → List A
  pub update : {A : Type 0} → (A → Bool) → (A → A) → List A → List A × List A
  pub delete : {A : Type 0} → (A → Bool) → List A → List A
  pub first_lem : {A : Type 0} (p : A → Bool) (rows : List A) → Selects p rows (first p rows)
  pub insert_lem : {A : Type 0} (a : A) (rows : List A) → insert a rows ≡ a ∷ rows
  pub update_lem :
      {A : Type 0} (p : A → Bool) (f : A → A) (rows : List A)
      → update p f rows ≡ (update_rows p f rows, map f (select_rows p rows))
  pub delete_lem : {A : Type 0} (p : A → Bool) (rows : List A) → delete p rows ≡ delete_rows p rows

-- A parsed JWT: its claims, whether the library holds it valid, and its `typ` header.
pub record ParsedToken : Type 0 where
  pub claims : JwtClaims
  pub valid : Bool
  pub typ : Text

-- What the code reads of a parsed `url.URL`.
pub record Url : Type 0 where
  pub scheme : Text
  pub host : Text
  pub hostname : Text
  pub has_user : Bool

-- config/config.go, the part that the services read. `has_events` and
-- `has_emails` say that a token event sink and an email sender are configured.
pub record Config : Type 0 where
  pub server_url : Text
  pub authorization_code_duration : ℕ
  pub access_token_duration : ℕ
  pub refresh_token_duration : ℕ
  pub id_token_duration : ℕ
  pub device_code_duration : ℕ
  pub device_code_poll_interval : ℕ
  pub session_duration : ℕ
  pub has_events : Bool
  pub has_emails : Bool

-- The first argument of what may differ from call to call is the number of the call. `fails n` says
-- that database statement n fails, and `others n` is what other requests did to the tables since
-- this request's last statement.
pub record Env : Type 1 where
  pub config : Config
  pub database : Database
  pub fails : ℕ → Bool
  pub others : ℕ → Db → Db
  pub now : ℕ → Time
  pub random_token : ℕ → ℕ → Option Text
  pub random_bytes : ℕ → ℕ → Option (List ℕ)
  pub random_below : ℕ → ℕ → Option ℕ
  pub new_uuid : ℕ → Uuid
  pub uuid_string : Uuid → Text
  pub uuid_parse : Text → Option Uuid
  pub sha256_base64 : Text → Text
  pub sign_access : ℕ → JwtClaims → Option Text
  pub sign_id : ℕ → IdTokenClaims → Option Text
  pub at_hash : Text → Text
  pub sha256_hex : Text → Text
  pub json_parse : Text → Option Json
  pub json_print : Json → Option Text
  pub secret_mac : Text → Text
  pub parse_url : Text → Option Url
  pub is_loopback_ip : Text → Bool
  pub path_escape : Text → Text
  pub bcrypt_hash : ℕ → Text → Option Text
  pub bcrypt_matches : Text → Text → Bool
  pub equal_fold : Text → Text → Bool
  pub query_escape : Text → Text
  pub send_email : ℕ → Uuid → Text → Text → List Text → Bool
  pub hmac_sha1 : Text → List ℕ → List ℕ
  pub recovery_hmac : Text → Text
  pub base64_decode : Text → Option Text
  pub gcm_open : Text → Text → Text → Option Text
  pub parse_jwt : ℕ → Text → Text → Text → Option ParsedToken

-- The state that a request threads: the tables, the number of outside calls made so far, and the
-- token events reported, newest first.
pub record World : Type 0 where
  pub db : Db
  pub calls : ℕ
  pub events : List TokenEvent
