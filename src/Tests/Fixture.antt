-- ===== src/Tests/Fixture.antt =====
-- A server, its tables and one world: the data of the examples.
use shieldgate.Base.{
  ℕ, zero, suc, ◌+◌, ◌≡◌, refl, Bool, true, false, Bool-cases, inl, inr, Option, none, some, List,
  [], ◌∷◌, ◌++◌, map, Text, codes, select_rows, update_rows, delete_rows, text_eq, if◌then◌else◌,
}
use shieldgate.Model.{
  Uuid, Client, User, active, AuthorizationCode, AccessToken, RefreshToken, DeviceCode, approved,
  JwtClaims, Session, Consent, UserMfa, MfaRecoveryCode, PasswordReset, InitialAccessToken,
  IdempotencyKey, json_object, json_null, no_entries, entry,
}
use shieldgate.Effect.{Db, Selects, Database, Config, Env, World}

-- The first matching row, in the order of the list.
abbrev pub first_row : {A : Type 0} → (A → Bool) → List A → Option A
first_row p [] = none
first_row p (a ∷ rows) = if p a then some a else first_row p rows

Selects-later :
    {A : Type 0} (p : A → Bool) (a : A) (rows : List A) (o : Option A)
    → p a ≡ false
    → Selects p rows o
    → Selects p (a ∷ rows) o
Selects-later p a rows none miss h = (miss, h)
Selects-later p a rows (some b) miss h = (h.0, inr h.1)

pub first_row-Selects :
    {A : Type 0} (p : A → Bool) (rows : List A) → Selects p rows (first_row p rows)
first_row-Selects p [] = tt
first_row-Selects p (a ∷ rows) = elim (Bool-cases (p a)) [
  | inl hit ↦ rw hit (hit, inl refl)
  | inr miss ↦ rw miss (Selects-later p a rows (first_row p rows) miss (first_row-Selects p rows))
]

abbrev pub list_database : Database
list_database = record {
  first = λ p rows. first_row p rows;
  insert = λ a rows. a ∷ rows;
  update = λ p f rows. (update_rows p f rows, map f (select_rows p rows));
  delete = λ p rows. delete_rows p rows;
  first_lem = λ p rows. first_row-Selects p rows;
  insert_lem = λ a rows. refl;
  update_lem = λ p f rows. refl;
  delete_lem = λ p rows. refl;
}

abbrev pub config : Config
config = record {
  server_url = codes "https://id";
  authorization_code_duration = 600_000_000_000;
  access_token_duration = 3_600_000_000_000;
  refresh_token_duration = 86_400_000_000_000;
  id_token_duration = 3_600_000_000_000;
  device_code_duration = 600_000_000_000;
  device_code_poll_interval = 0;
  session_duration = 1_000_000_000_000;
  has_events = true;
  has_emails = true;
}

abbrev pub jwt_claims : JwtClaims
jwt_claims = record {
  jti = codes "j";
  sub = codes "C";
  aud = codes "https://id";
  iss = codes "https://id";
  exp = 5000;
  iat = 1000;
  tenant_id = codes "A";
  scope = codes "openid email";
  client_id = codes "app";
  user_id = codes "C";
  email = codes "a@b";
  name = codes "ann";
  act = none;
}

-- Identifiers are one letter: 65 is "A".
abbrev pub letter_uuid : Text → Option Uuid
letter_uuid [] = none
letter_uuid (c ∷ _) = some c

-- Zero, where there is a number to draw.
abbrev pub below : ℕ → Option ℕ
below zero = none
below (suc k) = some 0

abbrev pub server : Env
server = record {
  config = config;
  database = list_database;
  fails = λ _. false;
  others = λ _ d. d;
  now = λ n. 3_000_000_000_000 + n;
  random_token = λ n k. some (n ∷ codes "token");
  random_bytes = λ n k. some (n ∷ []);
  random_below = λ n k. below k;
  new_uuid = λ n. 200 + n;
  uuid_string = λ u. u ∷ [];
  uuid_parse = letter_uuid;
  sha256_base64 = λ t. b'#' ∷ t;
  sign_access = λ n c. some (n ∷ codes "access");
  sign_id = λ n c. some (n ∷ codes "id");
  at_hash = λ t. t;
  sha256_hex = λ t. t;
  json_parse = λ t.
      if text_eq t (codes "{s}")
      then some (json_object (entry (codes "secret") json_null no_entries))
      else none;
  json_print = λ j. some (codes "{}");
  secret_mac = λ t. b'@' ∷ t;
  parse_url =
      λ t. some (record { scheme = codes "https"; host = t; hostname = t; has_user = false });
  is_loopback_ip = λ t. text_eq t (codes "127.0.0.1");
  path_escape = λ t. t;
  bcrypt_hash = λ n t. some (b'$' ∷ t);
  bcrypt_matches = λ hash t. text_eq hash (b'$' ∷ t);
  equal_fold = λ s t. text_eq s t;
  query_escape = λ t. t;
  send_email = λ n tenant to template values. true;
  hmac_sha1 = λ key counter. map (λ b. b + 1) (counter ++ (counter ++ counter));
  recovery_hmac = λ t. b'%' ∷ t;
  base64_decode = λ t. some t;
  gcm_open = λ nonce text aad. some text;
  parse_jwt = λ n iss aud t.
      if text_eq t (codes "jwt")
      then some (record { claims = jwt_claims; valid = true; typ = codes "at+jwt" })
      else none;
}

-- Tenant 65, client 66, user 67.
abbrev pub client : Client
client = record {
  id = 66;
  tenant_id = 65;
  client_id = codes "app";
  client_secret = [];
  name = codes "App";
  redirect_uris = codes "https://app/cb" ∷ [];
  post_logout_redirect_uris = [];
  grant_types = [];
  scopes = codes "openid" ∷ codes "email" ∷ [];
  is_public = true;
  token_endpoint_auth_method = codes "none";
  dynamically_registered = false;
  registration_access_token = [];
  created_at = 1;
  updated_at = 1;
  deleted_at = none;
}

abbrev pub confidential : Client
confidential = record client {
  id = 81;
  client_id = codes "web";
  client_secret = codes "$s3";
  is_public = false;
  token_endpoint_auth_method = codes "client_secret_basic";
}

abbrev pub user : User
user = record {
  id = 67;
  tenant_id = 65;
  username = codes "ann";
  email = codes "a@b";
  password_hash = codes "$pw";
  status = active;
  email_verified = true;
  email_verification_code = [];
  email_verification_expires_at = none;
  phone_number = [];
  phone_verified = false;
  first_name = codes "Ann";
  last_name = [];
  avatar = [];
  locale = [];
  timezone = [];
  last_login_at = none;
  last_login_ip = [];
  failed_login_attempts = 0;
  locked_at = none;
  locked_until = none;
  password_reset_token = [];
  password_reset_expires_at = none;
  metadata = [];
  created_at = 1;
  updated_at = 1;
  deleted_at = none;
}

abbrev pub auth_code : AuthorizationCode
auth_code = record {
  id = 70;
  tenant_id = 65;
  code = codes "code";
  client_id = 66;
  user_id = 67;
  redirect_uri = codes "https://app/cb";
  scope = codes "openid";
  code_challenge = codes "#v";
  code_challenge_method = codes "S256";
  nonce = [];
  auth_time = some 900;
  amr = [];
  used_at = none;
  expires_at = 9_000_000_000_000;
  created_at = 900;
}

abbrev pub used_code : AuthorizationCode
used_code = record auth_code { id = 75; code = codes "used"; used_at = some 950 }

-- The same code at another tenant.
abbrev foreign_code : AuthorizationCode
foreign_code = record auth_code { id = 76; tenant_id = 64 }

-- A refresh token whose family has one access token.
abbrev pub refresh_row : RefreshToken
refresh_row = record {
  id = 71;
  tenant_id = 65;
  token = codes "#refresh";
  client_id = 66;
  user_id = 67;
  family_id = 70;
  scope = codes "openid email";
  auth_time = none;
  amr = [];
  revoked_at = none;
  expires_at = 9_000_000_000_000;
  created_at = 900;
}

abbrev pub rotated_row : RefreshToken
rotated_row = record refresh_row { id = 74; token = codes "#rotated"; revoked_at = some 950 }

abbrev pub access_row : AccessToken
access_row = record {
  id = 72;
  tenant_id = 65;
  token = codes "#jwt";
  client_id = 66;
  user_id = 67;
  family_id = 70;
  scope = codes "openid email";
  expires_at = 9_000_000_000_000;
  created_at = 900;
}

abbrev pub device_row : DeviceCode
device_row = record {
  id = 73;
  tenant_id = 65;
  device_code = codes "#device";
  user_code = codes "BCDFGHJK";
  client_id = 66;
  user_id = some 67;
  scope = codes "email";
  status = approved;
  interval = 5;
  last_polled_at = none;
  auth_time = some 900;
  amr = [];
  expires_at = 9_000_000_000_000;
  created_at = 900;
}

-- Enabled, with the secret "KEY" after a nonce of twelve characters.
abbrev pub mfa_row : UserMfa
mfa_row = record {
  user_id = 67;
  tenant_id = 65;
  totp_secret = codes "twelve_charsKEY";
  confirmed_at = some 900;
  last_used_step = 98;
  failed_attempts = 2;
  locked_until = none;
  created_at = 900;
  updated_at = 900;
}

-- An enrollment that was just begun, with the same secret.
abbrev pub pending_row : UserMfa
pending_row = record mfa_row {
  user_id = 86;
  confirmed_at = none;
  last_used_step = 0;
  failed_attempts = 0;
  updated_at = 3_000_000_000_000;
}

abbrev recovery_row : MfaRecoveryCode
recovery_row = record {
  id = 78;
  tenant_id = 65;
  user_id = 67;
  code_hash = codes "%ABCDEFGHJK";
  used_at = none;
  created_at = 900;
}

abbrev pub session_row : Session
session_row = record {
  id = 79;
  tenant_id = 65;
  user_id = 67;
  token_hash = codes "#session";
  auth_time = 900;
  amr = codes "pwd" ∷ [];
  ip_address = [];
  user_agent = [];
  expires_at = 9_000_000_000_000;
  created_at = 900;
}

abbrev consent_row : Consent
consent_row = record {
  id = 80;
  tenant_id = 65;
  user_id = 67;
  client_id = 66;
  scope = codes "openid";
  created_at = 900;
  updated_at = 900;
}

abbrev pub reset_row : PasswordReset
reset_row = record {
  id = 82;
  tenant_id = 65;
  user_id = 67;
  token_hash = codes "#reset";
  expires_at = 9_000_000_000_000;
  used_at = none;
  created_at = 900;
}

-- A token for one registration.
abbrev pub initial_row : InitialAccessToken
initial_row = record {
  id = 83;
  tenant_id = 65;
  token_hash = codes "#initial";
  description = [];
  scopes = codes "openid" ∷ codes "email" ∷ [];
  max_uses = 1;
  uses = 0;
  created_by = none;
  expires_at = 9_000_000_000_000;
  revoked_at = none;
  created_at = 900;
}

abbrev pub dynamic_client : Client
dynamic_client = record client {
  id = 84;
  client_id = codes "dyn";
  dynamically_registered = true;
  registration_access_token = codes "#manage";
}

-- A request that is being processed.
abbrev pub key_row : IdempotencyKey
key_row = record {
  id = 85;
  tenant_id = 65;
  principal = codes "user:C";
  key = codes "k1";
  method = codes "POST";
  path = codes "/v1/users";
  request_hash = codes "h";
  status_code = 0;
  response_content_type = [];
  response_body = [];
  created_at = 3_000_000_000_000;
  expires_at = 9_000_000_000_000;
}

abbrev pub tables : Db
tables = record {
  clients = client ∷ confidential ∷ dynamic_client ∷ [];
  users = user ∷ [];
  auth_codes = auth_code ∷ used_code ∷ foreign_code ∷ [];
  access_tokens = access_row ∷ [];
  refresh_tokens = refresh_row ∷ rotated_row ∷ record refresh_row { id = 77; tenant_id = 64 } ∷ [];
  device_codes = device_row ∷ [];
  sessions = session_row ∷ [];
  consents = consent_row ∷ [];
  user_mfa = mfa_row ∷ pending_row ∷ [];
  recovery_codes = recovery_row ∷ [];
  email_verifications = [];
  password_resets = reset_row ∷ [];
  initial_access_tokens = initial_row ∷ [];
  idempotency_keys = key_row ∷ [];
}

abbrev pub world : World
world = record { db = tables; calls = 0; events = [] }
