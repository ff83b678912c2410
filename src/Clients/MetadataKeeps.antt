-- ===== src/Clients/MetadataKeeps.antt =====
-- `validateClientMetadata` touches no table.
use shieldgate.Base.{Bool, List, [], ◌∷◌, Text}
use shieldgate.Model.{ClientMetadata}
use shieldgate.Effect.{Env, Db, Url}
use shieldgate.Effect.Keeps.{Keeps, Keeps-bind, keeps_rules}
use shieldgate.Clients.Metadata.{
  check_grants, check_response_types, chosen_method, check_scopes, check_scheme, check_uri,
  check_uris, validate_registered_uris, validate_client_metadata,
}

module _ {P : Db → Type 0} where
  check_grants-Keeps : (grants : List Text) → Keeps P (check_grants grants)
  unfolding check_grants
  check_grants-Keeps [] = search keeps_rules
  check_grants-Keeps (g ∷ rest) = Keeps-bind _ _ (search keeps_rules) (λ _. check_grants-Keeps rest)

  check_response_types-Keeps :
      (b : Bool) (types : List Text) → Keeps P (check_response_types b types)
  unfolding check_response_types
  check_response_types-Keeps b types = search keeps_rules

  chosen_method-Keeps : (method : Text) → Keeps P (chosen_method method)
  unfolding chosen_method
  chosen_method-Keeps method = search keeps_rules

  check_scopes-Keeps : (scopes : List Text) → Keeps P (check_scopes scopes)
  unfolding check_scopes
  check_scopes-Keeps [] = search keeps_rules
  check_scopes-Keeps (s ∷ rest) = Keeps-bind _ _ (search keeps_rules) (λ _. check_scopes-Keeps rest)

  module _ (e : Env) where
    check_scheme-Keeps : (field : Text) (u : Url) → Keeps P (check_scheme e field u)
    unfolding check_scheme
    check_scheme-Keeps field u = search keeps_rules depth 8

    check_uri-Keeps : (field raw : Text) → Keeps P (check_uri e field raw)
    unfolding check_uri
    check_uri-Keeps field raw = search (keeps_rules, check_scheme-Keeps) depth 10

    check_uris-Keeps : (field : Text) (uris : List Text) → Keeps P (check_uris e field uris)
    unfolding check_uris
    check_uris-Keeps field [] = search keeps_rules
    check_uris-Keeps field (raw ∷ rest) =
        Keeps-bind _ _ (check_uri-Keeps field raw) (λ _. check_uris-Keeps field rest)

    uris-Keeps : (field : Text) (uris : List Text) → Keeps P (validate_registered_uris e field uris)
    unfolding validate_registered_uris
    uris-Keeps field uris = search (keeps_rules, check_uris-Keeps)

    pub validate-Keeps : (meta : ClientMetadata) → Keeps P (validate_client_metadata e meta)
    unfolding validate_client_metadata
    validate-Keeps meta =
        search
          (
            keeps_rules, check_grants-Keeps, check_response_types-Keeps, chosen_method-Keeps,
            check_scopes-Keeps, uris-Keeps,
          )
          depth 30
