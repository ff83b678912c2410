-- ===== src/Clients/Revised.antt =====
-- What a change of a registration has checked.
use shieldgate.Base.{◌≡◌, true, Text, join_space, Any}
use shieldgate.Model.{Uuid, Client, ClientRegistrationResponse}
use shieldgate.Effect.{Env, World}
use shieldgate.Repo.Outcomes.{seen}
use shieldgate.Repo.Client.{has_client_id}
use shieldgate.Scope.{parse_scope}
use shieldgate.Scope.Subset.{Within}
use shieldgate.Clients.Metadata.{RegisteredMetadata, is_public_method}
use shieldgate.Clients.Valid.{IsRegistrable}

module _ (e : Env) (tenant : Uuid) where
  -- An accepted registration access token: the stored client that it manages.
  pub record IsManaged (client_id token : Text) (w : World) (c : Client) : Type 0 where
    pub was_stored : Any (λ r. r ≡ c) (seen e w).clients
    pub matches : has_client_id tenant client_id c ≡ true
    pub dynamic : c.dynamically_registered ≡ true
    pub managed : c.registration_access_token ≡ e.sha256_base64 token

  -- A change of metadata that was taken: the client before, and what the answer says of it now.
  pub record WasUpdated (client_id token : Text) (w : World) (answer : ClientRegistrationResponse)
      (w' : World) : Type 0 where
    pub before : Client
    pub managed : IsManaged client_id token w before
    pub md : RegisteredMetadata
    pub valid : IsRegistrable e md
    pub same_kind : is_public_method md.auth_method ≡ before.is_public
    pub narrowed :
        Within (parse_scope answer.metadata.scope) (parse_scope (join_space before.scopes))
    pub grants : answer.metadata.grant_types ≡ md.grant_types
    pub redirects : answer.metadata.redirect_uris ≡ md.redirect_uris
    pub row : Client
    pub now_stored : Any (λ r. r ≡ row) w'.db.clients
    pub same_id : row.id ≡ before.id
    pub its_scopes : join_space row.scopes ≡ answer.metadata.scope
    pub its_grants : row.grant_types ≡ md.grant_types
    pub its_redirects : row.redirect_uris ≡ md.redirect_uris
    pub still_managed : row.registration_access_token ≡ before.registration_access_token
