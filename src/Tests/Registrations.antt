-- ===== src/Tests/Registrations.antt =====
-- Dynamic registration on the example tables.
use shieldgate.Base.{
  ℕ, ◌≤◌, ◌≡◌, refl, none, [], ◌∷◌, ◌++◌, Text, codes, fields, is_space, trim_space, trim_left,
  text_eq, to_lower, lower_rune, join_space, select_rows, update_rows,
}
use shieldgate.Model.{ok, ClientMetadata, ClientRegistrationResponse, grant_authorization_code}
use shieldgate.Effect.{
  Action, pure, throw, or_fail, wrap, outside, ◌>>=◌, clock, fresh_uuid, random_token, statement,
}
use shieldgate.Scope.{contains, dedupe, parse_scope, scope_is_subset, all_in, valid_scope_token}
use shieldgate.Repo.Statements.{find, write, change, save_row}
use shieldgate.Repo.InitialAccess.{get_initial_token, consume_initial_token}
use shieldgate.Repo.Client.{create_client_row, get_by_client_id, update_client_row}
use shieldgate.Users.Links.{trim_slash}
use shieldgate.Clients.Service.{generate_client_id, new_secret}
use shieldgate.Clients.Metadata.{
  RegisteredMetadata, has_rune, has_control, is_loopback, check_grants, check_response_types,
  chosen_method, check_scopes, check_scheme, check_uri, check_uris, validate_registered_uris,
  validate_client_metadata,
}
use shieldgate.Clients.Registration.{
  response, admit, register_client, register, update_registration,
}
use shieldgate.Clients.Valid.{IsRegistrable, validate_client_metadata-Registrable}
use shieldgate.Clients.Uses.{registered, registered-bounded}
use shieldgate.Clients.UsesLeft.{uses_left}
use shieldgate.Clients.Registered.{WasRegistered, register-WasRegistered}
use shieldgate.Tests.Fixture.{server, world, tables}

abbrev meta : ClientMetadata
meta = record {
  client_id = codes "dyn";
  redirect_uris = codes "x" ∷ [];
  post_logout_redirect_uris = [];
  token_endpoint_auth_method = codes "none";
  grant_types = [];
  response_types = codes "code" ∷ [];
  client_name = codes " App ";
  scope = codes "email";
}

abbrev accepted : RegisteredMetadata
accepted = record {
  name = codes "App";
  redirect_uris = codes "x" ∷ [];
  post_logout_redirect_uris = [];
  grant_types = grant_authorization_code ∷ [];
  auth_method = codes "none";
  scopes = codes "email" ∷ [];
}

validated : validate_client_metadata server meta world ≡ (ok accepted, world)
unfolding validate_client_metadata check_grants check_response_types chosen_method check_scopes
    check_scheme check_uri check_uris validate_registered_uris has_rune has_control is_loopback
    contains dedupe parse_scope valid_scope_token fields is_space trim_space trim_left text_eq
    to_lower lower_rune pure throw or_fail wrap ◌>>=◌
validated = refl

metadata_example : IsRegistrable server accepted
metadata_example = validate_client_metadata-Registrable server meta world validated

-- The answer for this metadata.
abbrev answer_for : Text → ℕ → Text → ClientRegistrationResponse
answer_for id issued token = record {
  metadata = record {
    client_id = [];
    redirect_uris = codes "x" ∷ [];
    post_logout_redirect_uris = [];
    token_endpoint_auth_method = codes "none";
    grant_types = grant_authorization_code ∷ [];
    response_types = codes "code" ∷ [];
    client_name = codes "App";
    scope = codes "email";
  };
  client_id = id;
  client_secret = [];
  client_id_issued_at = issued;
  client_secret_expires_at = none;
  registration_access_token = token;
  registration_client_uri = codes "https://id/oauth/register/" ++ id;
}

abbrev enroll : Action ClientRegistrationResponse
enroll = register server 65 (codes "initial") meta

abbrev enrolled : ClientRegistrationResponse
enrolled = answer_for (codes "client_" ++ (205 ∷ [])) 3000 (3 ∷ codes "token")

was_enrolled : enroll world ≡ (ok enrolled, (enroll world).1)
unfolding register admit register_client response get_initial_token consume_initial_token
    get_by_client_id create_client_row update_client_row find change write save_row
    generate_client_id new_secret trim_slash scope_is_subset all_in join_space
    validate_client_metadata check_grants check_response_types chosen_method check_scopes
    check_scheme check_uri check_uris validate_registered_uris has_rune has_control is_loopback
    contains dedupe parse_scope valid_scope_token fields is_space trim_space trim_left text_eq
    to_lower lower_rune select_rows update_rows pure throw or_fail wrap outside ◌>>=◌ clock
    fresh_uuid random_token statement
was_enrolled = refl

enrolled_example : WasRegistered server 65 (codes "initial") meta world enrolled (enroll world).1
enrolled_example = register-WasRegistered server 65 (codes "initial") meta world was_enrolled

abbrev revise : Action ClientRegistrationResponse
revise = update_registration server 65 (codes "dyn") (codes "manage") meta

abbrev revised : ClientRegistrationResponse
revised = answer_for (codes "dyn") 0 []

bounded_example :
    (registered server 65
      (codes "initial")
      (λ k. record { at = λ n d h. h })
      (meta ∷ meta ∷ meta ∷ [])
      world).0
    ≤ uses_left 65 (codes "#initial") tables.initial_access_tokens
bounded_example =
    registered-bounded server 65 (codes "initial") (λ k. record { at = λ n d h. h })
      (meta ∷ meta ∷ meta ∷ []) world
