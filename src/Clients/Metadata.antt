-- ===== src/Clients/Metadata.antt =====
-- `validateClientMetadata` and `validateRegisteredURIs` of internal/services/client_metadata.go.
use shieldgate.Base.{
  ℕ, Bool, false, not, ◌&&◌, ◌||◌, ◌==◌, ltb, leb, List, [], ◌∷◌, ◌++◌, Text, codes, is_cons,
  length, len, text_eq, to_lower, trim_space, if◌then◌else◌,
}
use shieldgate.Model.{
  Error, registration_error, ClientMetadata, grant_authorization_code, grant_refresh_token,
  grant_client_credentials, grant_device_code,
}
use shieldgate.Scope.{contains, dedupe, parse_scope, valid_scope_token}
use shieldgate.Effect.{Env, Url, Action, guard, pure, throw, or_fail, ◌>>=◌, ◌>>◌}

abbrev pub max_registered_uris : ℕ
max_registered_uris = 10

abbrev pub max_registered_uri_len : ℕ
max_registered_uri_len = 2000

abbrev pub max_client_name_length : ℕ
max_client_name_length = 255

abbrev pub max_registered_scopes : ℕ
max_registered_scopes = 50

-- `dynamicGrantTypes`, as the list of its keys.
abbrev pub dynamic_grant_types : List Text
dynamic_grant_types =
    grant_authorization_code ∷ grant_refresh_token ∷ grant_client_credentials ∷ grant_device_code
    ∷ []

-- `registeredMetadata`.
pub record RegisteredMetadata : Type 0 where
  pub name : Text
  pub redirect_uris : List Text
  pub post_logout_redirect_uris : List Text
  pub grant_types : List Text
  pub auth_method : Text
  pub scopes : List Text

-- `isPublic`.
abbrev pub is_public_method : Text → Bool
is_public_method method = text_eq method (codes "none")

abbrev pub invalid_metadata : Text → Error
invalid_metadata description = registration_error (codes "invalid_client_metadata") description

abbrev pub invalid_redirect : Text → Error
invalid_redirect description = registration_error (codes "invalid_redirect_uri") description

-- `strings.Contains(s, c)` for one character.
unfoldable pub has_rune : ℕ → Text → Bool
has_rune c [] = false
has_rune c (d ∷ s) = d == c || has_rune c s

-- `strings.IndexFunc(s, unicode.IsControl) >= 0`.
unfoldable pub has_control : Text → Bool
has_control [] = false
has_control (c ∷ s) = ltb c 0x20 || (leb 0x7f c && leb c 0x9f) || has_control s

abbrev or_default : List Text → List Text → List Text
or_default given other = if is_cons given then given else other

abbrev code_only : List Text → Bool
code_only [] = false
code_only (t ∷ []) = text_eq t (codes "code")
code_only (t ∷ (u ∷ rest)) = false

-- The loop over the grant types.
unfoldable pub check_grants : List Text → Action (Unit {0})
unfolding contains
check_grants [] = pure tt
check_grants (g ∷ rest) =
    guard (contains dynamic_grant_types g)
      (invalid_metadata (codes "grant_type " ++ (g ++ codes " cannot be registered")))
    >> check_grants rest

-- The switch over the response types; `has_code` says that the client has the authorization code grant.
unfoldable pub check_response_types : Bool → List Text → Action (Unit {0})
check_response_types has_code types =
    if not (is_cons types) || (has_code && code_only types)
    then pure tt
    else throw (
        invalid_metadata (
          if has_code
          then codes "only the code response type is supported"
          else codes "response_types require the authorization_code grant"))

-- The switch over the authentication method.
unfoldable pub chosen_method : Text → Action Text
chosen_method method =
    if not (is_cons method)
    then pure (codes "client_secret_basic")
    else if text_eq method (codes "none")
        || text_eq method (codes "client_secret_basic")
        || text_eq method (codes "client_secret_post")
    then pure method
    else throw (invalid_metadata (codes "unsupported token_endpoint_auth_method"))

-- The loop over the scopes.
unfoldable pub check_scopes : List Text → Action (Unit {0})
check_scopes [] = pure tt
check_scopes (s ∷ rest) =
    guard (valid_scope_token s) (invalid_metadata (codes "invalid scope " ++ s))
    >> check_scopes rest

module _ (e : Env) where
  -- `isLoopback`.
  unfoldable pub is_loopback : Text → Bool
  is_loopback host = text_eq host (codes "localhost") || e.is_loopback_ip host

  -- The switch over the scheme.
  unfoldable pub check_scheme : Text → Url → Action (Unit {0})
  unfolding is_loopback has_rune
  check_scheme field u =
      if text_eq (to_lower u.scheme) (codes "https")
      then guard (is_cons u.host && not u.has_user)
          (invalid_redirect (field ++ codes " must have a host and no user information"))
      else if text_eq (to_lower u.scheme) (codes "http")
      then guard (is_loopback u.hostname && not u.has_user) (
          invalid_redirect
            (codes "http " ++ (field ++ codes " are allowed only for loopback addresses")))
      else guard (has_rune b'.' u.scheme) (
          invalid_redirect
            (field ++ codes " must use https, loopback http or a reverse-domain scheme"))

  -- The body of the loop in `validateRegisteredURIs`.
  unfoldable pub check_uri : Text → Text → Action (Unit {0})
  unfolding has_rune
  check_uri field raw = do
    guard (not (ltb max_registered_uri_len (len raw) || has_rune b'#' raw))
        (invalid_redirect (field ++ codes " must not be too long or contain a fragment"))
    u ← or_fail (e.parse_url raw) (invalid_redirect (field ++ codes " must be absolute URIs"))
    guard (is_cons u.scheme) (invalid_redirect (field ++ codes " must be absolute URIs"))
    check_scheme field u

  unfoldable pub check_uris : Text → List Text → Action (Unit {0})
  check_uris field [] = pure tt
  check_uris field (raw ∷ rest) = check_uri field raw >> check_uris field rest

  -- `validateRegisteredURIs`.
  unfoldable pub validate_registered_uris : Text → List Text → Action (List Text)
  validate_registered_uris field uris = do
    let kept = dedupe uris
    guard (leb (length kept) max_registered_uris) (invalid_redirect (codes "too many " ++ field))
    check_uris field kept
    pure kept

  abbrev chosen_name : Text → Text
  chosen_name given =
      if is_cons (trim_space given) then trim_space given else codes "Dynamically registered client"

  -- `validateClientMetadata`. It reads nothing and writes nothing.
  unfoldable pub validate_client_metadata : ClientMetadata → Action RegisteredMetadata
  unfolding contains parse_scope has_control
  validate_client_metadata meta = do
    let grants = or_default (dedupe meta.grant_types) (grant_authorization_code ∷ [])
    let has_code = contains grants grant_authorization_code
    check_grants grants
    guard
        (not (
          contains grants grant_refresh_token
          && not has_code
          && not (contains grants grant_device_code)))
        (invalid_metadata
          (codes "refresh_token requires the authorization_code or device_code grant"))
    check_response_types has_code (dedupe meta.response_types)
    method ← chosen_method meta.token_endpoint_auth_method
    guard (not (is_public_method method && contains grants grant_client_credentials))
        (invalid_metadata (codes "client_credentials requires an authenticated client"))
    uris ← validate_registered_uris (codes "redirect_uris") meta.redirect_uris
    guard (not (has_code && not (is_cons uris)))
        (invalid_redirect (codes "redirect_uris is required for the authorization_code grant"))
    logout_uris ←
        validate_registered_uris (codes "post_logout_redirect_uris") meta.post_logout_redirect_uris
    let name = chosen_name meta.client_name
    guard (not (ltb max_client_name_length (len name) || has_control name))
        (invalid_metadata (codes "client_name is too long or contains control characters"))
    let scopes = parse_scope meta.scope
    guard (leb (length scopes) max_registered_scopes) (invalid_metadata (codes "too many scopes"))
    check_scopes scopes
    pure (record {
      name = name;
      redirect_uris = uris;
      post_logout_redirect_uris = logout_uris;
      grant_types = grants;
      auth_method = method;
      scopes = scopes;
    })
