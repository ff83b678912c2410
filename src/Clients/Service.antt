-- ===== src/Clients/Service.antt =====
-- internal/services/client_service_impl.go. The log lines are left out. A created or changed client is
-- returned with its plain secret, which is empty if none was made.
use shieldgate.Base.{
  Bool, true, false, not, ◌||◌, Option, none, some, List, [], ◌++◌, Text, codes, is_cons, take,
  if◌then◌else◌,
}
use shieldgate.Model.{
  Uuid, wrapped, refused, Result, ok, err, invalid_client, Client, CreateClientRequest,
  UpdateClientRequest,
}
use shieldgate.Scope.{contains}
use shieldgate.Effect.{
  Env, Action, clock, fresh_uuid, outside, random_token, wrap, throw, pure, guard, ◌>>=◌, ◌>>◌,
}
use shieldgate.Repo.AccessToken
use shieldgate.Repo.RefreshToken
use shieldgate.Repo.Accounts.{get_client}
use shieldgate.Repo.Client.{
  create_client_row, get_by_client_id, update_client_row, delete_client_row,
}
use shieldgate.Clients.Cache.{Entry, verified, remember}

-- `tokenEndpointAuthMethodFor`.
unfoldable pub auth_method_for : Bool → Text
auth_method_for is_public = if is_public then codes "none" else codes "client_secret_basic"

abbrev or_old : List Text → List Text → List Text
or_old given old = if is_cons given then given else old

abbrev or_kept : Option (List Text) → List Text → List Text
or_kept none old = old
or_kept (some given) old = given

abbrev pub no_secret : Text × Text
no_secret = ([], [])

module _ (e : Env) where
  -- `generateClientID`.
  unfoldable pub generate_client_id : Action Text
  generate_client_id = fresh_uuid e >>= (λ id. pure (codes "client_" ++ take 16 (e.uuid_string id)))

  -- `generateClientSecret`.
  unfoldable pub generate_client_secret : Action Text
  generate_client_secret = random_token e 32 >>= (λ t. pure (codes "secret_" ++ t))

  -- `hashClientSecret`.
  unfoldable pub hash_client_secret : Text → Action Text
  hash_client_secret secret = outside e (λ k. e.bcrypt_hash k secret)

  -- A new secret and its hash.
  unfoldable pub new_secret : Action (Text × Text)
  new_secret = do
    secret ← wrap wrapped generate_client_secret
    hash ← wrap wrapped (hash_client_secret secret)
    pure (secret, hash)

  -- `ValidateRedirectURI`.
  unfoldable pub validate_redirect_uri : Client → Text → Result (Unit {0})
  unfolding contains
  validate_redirect_uri c uri =
      if contains c.redirect_uris uri
      then ok tt
      else err (refused (codes "redirect URI not allowed"))

  module _ (tenant : Uuid) where
    -- `Create`.
    unfoldable pub create_client : CreateClientRequest → Action (Client × Text)
    create_client req = do
      guard (is_cons req.name) (refused (codes "client name is required"))
      guard (is_cons req.redirect_uris) (refused (codes "at least one redirect URI is required"))
      guard (is_cons req.grant_types) (refused (codes "at least one grant type is required"))
      client_id ← generate_client_id
      (secret, hash) ← if req.is_public then pure no_secret else new_secret
      id ← fresh_uuid e
      let row : Client = record {
        id = id;
        tenant_id = tenant;
        client_id = client_id;
        client_secret = hash;
        name = req.name;
        redirect_uris = req.redirect_uris;
        post_logout_redirect_uris = req.post_logout_redirect_uris;
        grant_types = req.grant_types;
        scopes = req.scopes;
        is_public = req.is_public;
        token_endpoint_auth_method = auth_method_for req.is_public;
        dynamically_registered = false;
        registration_access_token = [];
        created_at = 0;
        updated_at = 0;
        deleted_at = none;
      }
      c ← wrap wrapped (create_client_row e row)
      pure (c, secret)

    abbrev edited : UpdateClientRequest → Client → Client
    edited req c = record c {
      name = if is_cons req.name then req.name else c.name;
      redirect_uris = or_old req.redirect_uris c.redirect_uris;
      post_logout_redirect_uris = or_kept req.post_logout_redirect_uris c.post_logout_redirect_uris;
      grant_types = or_old req.grant_types c.grant_types;
      scopes = or_old req.scopes c.scopes;
    }

    -- The change of type in `Update`: a public client loses its secret, and a confidential one gets one.
    unfoldable pub retyped : Option Bool → Client → Action (Client × Text)
    retyped none c = pure (c, [])
    retyped (some true) c = pure (
      record c {
        is_public = true;
        token_endpoint_auth_method = auth_method_for true;
        client_secret = [];
      },
      [],
    )
    retyped (some false) c = do
      (secret, hash) ← if is_cons c.client_secret then pure ([], c.client_secret) else new_secret
      pure (
        record c {
          is_public = false;
          token_endpoint_auth_method = auth_method_for false;
          client_secret = hash;
        },
        secret,
      )

    -- `Update`.
    unfoldable pub update_client : Uuid → UpdateClientRequest → Action (Client × Text)
    update_client id req = do
      c ← get_client e tenant id
      (changed, secret) ← retyped req.is_public (edited req c)
      row ← wrap wrapped (update_client_row e changed)
      pure (row, secret)

    -- `Delete`: the client's tokens go with it.
    unfoldable pub delete_client : Uuid → Action (Unit {0})
    delete_client id = do
      c ← get_client e tenant id
      wrap wrapped (delete_client_row e tenant id)
      wrap wrapped (AccessToken.delete_by_client_id e tenant id)
      wrap wrapped (RefreshToken.delete_by_client_id e tenant id)

    -- The comparison by bcrypt, and the new entry.
    unfoldable pub compare_secret :
        Option (List Entry) → Client → Text → Action (Client × Option (List Entry))
    compare_secret cache c secret =
        if e.bcrypt_matches c.client_secret secret
        then (clock e >>= (λ now. pure (c, remember e now cache c.id c.client_secret secret)))
        else throw invalid_client

    -- The secret of a confidential client.
    unfoldable pub check_secret :
        Option (List Entry) → Client → Text → Action (Client × Option (List Entry))
    check_secret cache c secret =
        if not (is_cons secret) || not (is_cons c.client_secret)
        then throw invalid_client
        else (clock e >>= (λ now.
            if verified e now cache c.id c.client_secret secret
            then pure (c, cache)
            else compare_secret cache c secret))

    unfoldable pub validate_found :
        Option (List Entry) → Text → Client → Action (Client × Option (List Entry))
    validate_found cache secret c =
        if c.is_public
        then (if is_cons secret then throw invalid_client else pure (c, cache))
        else check_secret cache c secret

    -- `ValidateClient`: the client, and the cache afterwards. An error leaves the cache as it was.
    unfoldable pub validate_client :
        Option (List Entry) → Text → Text → Action (Client × Option (List Entry))
    validate_client cache client_id secret =
        wrap (λ _. invalid_client) (get_by_client_id e tenant client_id)
        >>= validate_found cache secret
