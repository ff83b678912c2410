-- ===== src/Model/Basics.antt =====
-- internal/models/models.go: identifiers, times, the sentinel errors and the grant type names.
use shieldgate.Base.{◌≡◌, ℕ, ◌/◌, Bool, not, Text, codes, ltb}

abbrev pub Uuid : Type 0
Uuid = ℕ

abbrev pub nil_uuid : Uuid
nil_uuid = 0

abbrev pub Time : Type 0
Time = ℕ

-- `Time.Unix`, and the whole seconds of a duration.
abbrev pub seconds : Time → ℕ
seconds t = t / 1_000_000_000

-- The sentinel errors that the modelled code returns. `wrapped` is `fmt.Errorf("…: %w", err)`,
-- `refused` an error of the text alone, `registration_error` a `RegistrationError`, and `internal` any
-- other failure (of the database, the random source or a signature).
pub data Error : Type 0 where
  resource_not_found resource_conflict user_not_found client_not_found : Error
  auth_code_not_found access_token_not_found refresh_token_not_found : Error
  invalid_grant invalid_scope insufficient_scope session_not_found : Error
  revoked_token invalid_token tenant_mismatch : Error
  mfa_not_enabled mfa_already_enabled mfa_not_enrolling invalid_mfa_code mfa_locked : Error
  pkce_verification_failed auth_code_already_used : Error
  device_code_not_found authorization_pending slow_down expired_device_code : Error
  device_access_denied internal : Error
  invalid_credentials invalid_client unauthorized_client user_locked user_suspended : Error
  invalid_verification_code verification_expired email_already_verified : Error
  emails_unavailable password_too_short duplicate_resource business_rule_violation : Error
  role_not_found permission_not_found tenant_not_found initial_access_token_not_found : Error
  refused : Text → Error
  registration_error : Text → Text → Error
  wrapped : Error → Error

pub data Result {ℓ} (A : Type ℓ) : Type ℓ where
  ok : A → Result A
  err : Error → Result A

-- The `IsExpired` methods: `!time.Now().Before(x.ExpiresAt)`, with the time read first.
unfoldable pub is_expired : Time → Time → Bool
is_expired now expires_at = not (ltb now expires_at)

abbrev pub grant_authorization_code : Text
grant_authorization_code = codes "authorization_code"

abbrev pub grant_refresh_token : Text
grant_refresh_token = codes "refresh_token"

abbrev pub grant_client_credentials : Text
grant_client_credentials = codes "client_credentials"

abbrev pub grant_device_code : Text
grant_device_code = codes "urn:ietf:params:oauth:grant-type:device_code"

abbrev pub grant_token_exchange : Text
grant_token_exchange = codes "urn:ietf:params:oauth:grant-type:token-exchange"

abbrev pub type_access_token : Text
type_access_token = codes "urn:ietf:params:oauth:token-type:access_token"

abbrev pub bearer : Text
bearer = codes "Bearer"

pub ok-injective {ℓ} : {A : Type ℓ} {a b : A} → ok a ≡ ok b → a ≡ b
ok-injective h = cc
