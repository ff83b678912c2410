-- ===== src/Clients/Registration.antt =====
-- internal/services/registration_service_impl.go, but for the listing. The log lines are left out.
use shieldgate.Base.{
  ℕ, ◌+◌, ◌*◌, ◌%◌, ◌^◌, ◌==◌, leb, ltb, Bool, true, false, not, ◌||◌, Option, none, some, List, [],
  ◌∷◌, ◌++◌, Text, codes, is_cons, text_eq, join_space, if◌then◌else◌,
}
use shieldgate.Model.{
  Uuid, Time, seconds, wrapped, Error, initial_access_token_not_found, client_not_found,
  invalid_token, Client, InitialAccessToken, CreateInitialAccessTokenRequest, ClientMetadata,
  ClientRegistrationResponse, grant_authorization_code,
}
use shieldgate.Scope.{contains, dedupe, scope_is_subset}
use shieldgate.Effect.{Env, Action, clock, fresh_uuid, random_token, wrap, pure, guard, ◌>>=◌, ◌>>◌}
use shieldgate.Repo.InitialAccess.{
  create_initial_token, get_initial_token, consume_initial_token, revoke_initial_token,
}
use shieldgate.Repo.Client.{create_client_row, get_by_client_id, update_client_row}
use shieldgate.Users.Links.{trim_slash}
use shieldgate.Clients.Metadata.{
  RegisteredMetadata, is_public_method, invalid_metadata, check_scopes, validate_client_metadata,
}
use shieldgate.Clients.Service.{no_secret, generate_client_id, new_secret, delete_client}

-- Twenty-four hours, and thirty days.
abbrev pub default_initial_access_token_ttl : Time
default_initial_access_token_ttl = 86_400 * 1_000_000_000

abbrev pub max_initial_access_token_ttl : Time
max_initial_access_token_ttl = 2_592_000 * 1_000_000_000

abbrev pub max_initial_access_token_uses : ℕ
max_initial_access_token_uses = 1000

-- `time.Duration(req.ExpiresIn) * time.Second`, in 64 bits, or the default.
unfoldable pub initial_ttl : ℕ → ℕ
initial_ttl expires_in =
    if expires_in == 0
    then default_initial_access_token_ttl
    else (expires_in * 1_000_000_000) % 2 ^ 64

abbrev pub initial_uses : ℕ → ℕ
initial_uses max_uses = if max_uses == 0 then 1 else max_uses

-- `errors.Is(err, ErrInitialAccessTokenNotFound)`.
unfoldable pub is_unknown_token : Error → Bool
is_unknown_token initial_access_token_not_found = true
is_unknown_token (wrapped x) = is_unknown_token x
is_unknown_token _ = false

-- `errors.Is(err, ErrClientNotFound)`.
unfoldable pub is_unknown_client : Error → Bool
is_unknown_client client_not_found = true
is_unknown_client (wrapped x) = is_unknown_client x
is_unknown_client _ = false

abbrev pub hide_token : Error → Error
hide_token x = if is_unknown_token x then invalid_token else x

abbrev hide_client : Error → Error
hide_client x = if is_unknown_client x then invalid_token else x

-- The requested scopes, or all that may be requested.
abbrev pub scopes_or : List Text → List Text → List Text
scopes_or given allowed = if is_cons given then given else allowed

module _ (e : Env) (tenant : Uuid) where
  -- `CreateInitialAccessToken`: the row and its token.
  unfoldable pub create_initial_access_token :
      Option Uuid → CreateInitialAccessTokenRequest → Action (InitialAccessToken × Text)
  unfolding initial_ttl check_scopes
  create_initial_access_token created_by req = do
    let scopes = dedupe req.scopes
    guard (is_cons scopes) (invalid_metadata (codes "scopes must not be empty"))
    check_scopes scopes
    let ttl = initial_ttl req.expires_in
    guard (not (ttl == 0 || leb (2 ^ 63) ttl || ltb max_initial_access_token_ttl ttl))
        (invalid_metadata (codes "expires_in must be between 1 second and 30 days"))
    let uses = initial_uses req.max_uses
    guard (not (leb (2 ^ 63) uses || ltb max_initial_access_token_uses uses))
        (invalid_metadata (codes "max_uses must be between 1 and 1000"))
    token ← wrap wrapped (random_token e 32)
    id ← fresh_uuid e
    now ← clock e
    created ← clock e
    let row : InitialAccessToken = record {
      id = id;
      tenant_id = tenant;
      token_hash = e.sha256_base64 token;
      description = req.description;
      scopes = scopes;
      max_uses = uses;
      uses = 0;
      created_by = created_by;
      expires_at = now + ttl;
      revoked_at = none;
      created_at = created;
    }
    create_initial_token e row
    pure (row, token)

  -- `RevokeInitialAccessToken`.
  unfoldable pub revoke_initial_access_token : Uuid → Action (Unit {0})
  revoke_initial_access_token id = revoke_initial_token e tenant id

  abbrev response_types_of : Client → List Text
  response_types_of c =
      if contains c.grant_types grant_authorization_code then codes "code" ∷ [] else []

  -- `response`.
  unfoldable pub response : Client → ClientRegistrationResponse
  unfolding trim_slash contains
  response c = record {
    metadata = record {
      client_id = [];
      redirect_uris = c.redirect_uris;
      post_logout_redirect_uris = c.post_logout_redirect_uris;
      token_endpoint_auth_method = c.token_endpoint_auth_method;
      grant_types = c.grant_types;
      response_types = response_types_of c;
      client_name = c.name;
      scope = join_space c.scopes;
    };
    client_id = c.client_id;
    client_secret = [];
    client_id_issued_at = seconds c.created_at;
    client_secret_expires_at = none;
    registration_access_token = [];
    registration_client_uri =
        trim_slash e.config.server_url ++ (codes "/oauth/register/" ++ e.path_escape c.client_id);
  }

  -- What `Register` stores and answers once a use of the token was taken.
  unfoldable pub register_client :
      RegisteredMetadata → List Text → Action ClientRegistrationResponse
  register_client md scopes = do
    token ← wrap wrapped (random_token e 32)
    (secret, hash) ← if is_public_method md.auth_method then pure no_secret else new_secret e
    id ← fresh_uuid e
    client_id ← generate_client_id e
    now ← clock e
    c ← wrap wrapped (
        create_client_row e (record {
          id = id;
          tenant_id = tenant;
          client_id = client_id;
          client_secret = hash;
          name = md.name;
          redirect_uris = md.redirect_uris;
          post_logout_redirect_uris = md.post_logout_redirect_uris;
          grant_types = md.grant_types;
          scopes = scopes;
          is_public = is_public_method md.auth_method;
          token_endpoint_auth_method = md.auth_method;
          dynamically_registered = true;
          registration_access_token = e.sha256_base64 token;
          created_at = now;
          updated_at = 0;
          deleted_at = none;
        }))
    pure (record (response c) {
      client_secret = secret;
      client_secret_expires_at = if is_cons secret then some 0 else none;
      registration_access_token = token;
    })

  -- The checks of `Register` before a use of the token is taken: the metadata and the scopes to register.
  unfoldable pub admit : Text → ClientMetadata → Action (RegisteredMetadata × List Text)
  unfolding is_unknown_token
  admit token meta = do
    guard (is_cons token) invalid_token
    initial ← wrap hide_token (get_initial_token e tenant (e.sha256_base64 token))
    md ← validate_client_metadata e meta
    let scopes = scopes_or md.scopes initial.scopes
    guard (scope_is_subset (join_space scopes) (join_space initial.scopes))
        (invalid_metadata (codes "scope exceeds what this initial access token allows"))
    pure (md, scopes)

  -- `Register`.
  unfoldable pub register : Text → ClientMetadata → Action ClientRegistrationResponse
  unfolding is_unknown_token
  register token meta = do
    (md, scopes) ← admit token meta
    used ← wrap hide_token (consume_initial_token e tenant (e.sha256_base64 token))
    register_client md scopes

  -- `authorize`.
  unfoldable pub authorize : Text → Text → Action Client
  unfolding is_unknown_client
  authorize client_id token = do
    guard (is_cons token) invalid_token
    c ← wrap hide_client (get_by_client_id e tenant client_id)
    guard
        (not (
          not c.dynamically_registered
          || not (is_cons c.registration_access_token)
          || not (text_eq c.registration_access_token (e.sha256_base64 token))))
        invalid_token
    pure c

  -- `Read`.
  unfoldable pub read_registration : Text → Text → Action ClientRegistrationResponse
  read_registration client_id token = authorize client_id token >>= (λ c. pure (response c))

  abbrev pub replaced : RegisteredMetadata → List Text → Time → Client → Client
  replaced md scopes now c = record c {
    name = md.name;
    redirect_uris = md.redirect_uris;
    post_logout_redirect_uris = md.post_logout_redirect_uris;
    grant_types = md.grant_types;
    scopes = scopes;
    token_endpoint_auth_method = md.auth_method;
    updated_at = now;
  }

  abbrev pub same_flag : Bool → Bool → Bool
  same_flag true b = b
  same_flag false b = not b

  -- `Update`.
  unfoldable pub update_registration :
      Text → Text → ClientMetadata → Action ClientRegistrationResponse
  update_registration client_id token meta = do
    c ← authorize client_id token
    guard (text_eq meta.client_id client_id)
        (invalid_metadata (codes "client_id must match the client being updated"))
    md ← validate_client_metadata e meta
    guard (same_flag (is_public_method md.auth_method) c.is_public) (
        invalid_metadata
          (codes "token_endpoint_auth_method cannot switch between public and confidential"))
    let scopes = scopes_or md.scopes c.scopes
    guard (scope_is_subset (join_space scopes) (join_space c.scopes))
        (invalid_metadata (codes "scope can only be narrowed"))
    now ← clock e
    row ← wrap wrapped (update_client_row e (replaced md scopes now c))
    pure (response row)

  -- `Delete`.
  unfoldable pub delete_registration : Text → Text → Action (Unit {0})
  delete_registration client_id token =
      authorize client_id token >>= (λ c. delete_client e tenant c.id)
