-- ===== src/Auth/Claims.antt =====
-- The token contents of internal/services/auth_service_impl.go, with oidc_claims.go and the token
-- type test of internal/jwtkeys/jwtkeys.go.
use shieldgate.Base.{
  ℕ, Bool, false, not, ◌&&◌, ◌==◌, Option, none, some, List, [], ◌∷◌, ◌++◌, Text, codes, is_cons,
  if◌then◌else◌, text_eq, trim_space, to_lower, trim_prefix, ◌+◌,
}
use shieldgate.Model.{
  Uuid, Time, nil_uuid, seconds, Client, User, UserInfo, IdTokenParams, IdTokenClaims, JwtClaims,
}
use shieldgate.Scope.{scope_contains, scope_profile, scope_email, scope_phone}
use shieldgate.Effect.{Env, Action, clock, fresh_uuid, outside, ◌>>=◌}

-- What the user's original authentication established (`authContext`).
pub record AuthContext : Type 0 where
  pub grant_type : Text
  pub auth_time : Option Time
  pub amr : List Text
  pub nonce : Text

abbrev pub no_context : AuthContext
no_context = record { grant_type = []; auth_time = none; amr = []; nonce = [] }

-- `userRef`.
unfoldable pub user_ref : Uuid → Option Uuid
user_ref user = if user == nil_uuid then none else some user

abbrev only_sub : Text → UserInfo
only_sub sub = record {
  sub = sub;
  name = [];
  given_name = [];
  family_name = [];
  preferred_username = [];
  picture = [];
  locale = [];
  zoneinfo = [];
  updated_at = 0;
  email = [];
  email_verified = none;
  phone_number = [];
  phone_number_verified = none;
}

-- The zero `time.Time` is 0.
abbrev with_profile : User → UserInfo → UserInfo
with_profile user claims =
    let full = trim_space (user.first_name ++ (32 ∷ user.last_name)) in
    record claims {
      name = if is_cons full then full else user.username;
      given_name = user.first_name;
      family_name = user.last_name;
      preferred_username = user.username;
      picture = user.avatar;
      locale = user.locale;
      zoneinfo = user.timezone;
      updated_at = if user.updated_at == 0 then 0 else seconds user.updated_at;
    }

abbrev with_email : User → UserInfo → UserInfo
with_email user claims = record claims {
  email = user.email;
  email_verified = some user.email_verified;
}

abbrev with_phone : User → UserInfo → UserInfo
with_phone user claims = record claims {
  phone_number = user.phone_number;
  phone_number_verified = some user.phone_verified;
}

-- `userClaimsForScope`.
unfoldable pub user_claims_for_scope : Env → User → Text → UserInfo
user_claims_for_scope e user scope =
    let base = only_sub (e.uuid_string user.id) in
    let named = if scope_contains scope scope_profile then with_profile user base else base in
    let mailed = if scope_contains scope scope_email then with_email user named else named in
    if scope_contains scope scope_phone && is_cons user.phone_number
    then with_phone user mailed
    else mailed

-- `ValidatePKCE`; the constant-time comparison is an equality test.
unfoldable pub validate_pkce : Env → Text → Text → Text → Bool
validate_pkce e verifier challenge method =
    if not (text_eq method (codes "S256"))
    then false
    else text_eq (e.sha256_base64 verifier) challenge

-- `jwtkeys.HasType`, from the header's text.
unfoldable pub has_type : Text → Text → Bool
has_type header typ = text_eq (trim_prefix (codes "application/") (to_lower header)) (to_lower typ)

abbrev pub type_at_jwt : Text
type_at_jwt = codes "at+jwt"

abbrev auth_time_claim : Option Time → ℕ
auth_time_claim none = 0
auth_time_claim (some t) = if t == 0 then 0 else seconds t

module _ (e : Env) where
  -- `generateJWT`.
  unfoldable pub generate_jwt : Uuid → Client → Uuid → Text → ℕ → Action Text
  generate_jwt tenant client user scope duration = do
    now ← clock e
    jti ← fresh_uuid e
    let claims : JwtClaims = record {
      jti = e.uuid_string jti;
      sub = if user == nil_uuid then client.client_id else e.uuid_string user;
      aud = e.config.server_url;
      iss = e.config.server_url;
      exp = seconds (now + duration);
      iat = seconds now;
      tenant_id = e.uuid_string tenant;
      scope = scope;
      client_id = client.client_id;
      user_id = if user == nil_uuid then [] else e.uuid_string user;
      email = [];
      name = [];
      act = none;
    }
    outside e (λ k. e.sign_access k claims)

  -- The claims of `GenerateIDToken`.
  unfoldable pub id_token_claims : User → IdTokenParams → Time → IdTokenClaims
  id_token_claims user params now = record {
    user_info = user_claims_for_scope e user params.scope;
    iss = e.config.server_url;
    aud = params.client_id;
    exp = seconds (now + e.config.id_token_duration);
    iat = seconds now;
    auth_time = auth_time_claim params.auth_time;
    amr = params.amr;
    nonce = params.nonce;
    at_hash = if is_cons params.access_token then e.at_hash params.access_token else [];
    tenant_id = e.uuid_string user.tenant_id;
  }

  unfoldable pub generate_id_token : User → IdTokenParams → Action Text
  unfolding id_token_claims
  generate_id_token user params = do
    now ← clock e
    outside e (λ k. e.sign_id k (id_token_claims user params now))
