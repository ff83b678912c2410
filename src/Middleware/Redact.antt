-- ===== src/Middleware/Redact.antt =====
-- `redactResponse` and `redact` of internal/middleware/idempotency.go: what the deletion in place makes
-- of a document, and whether it deleted anything.
use shieldgate.Base.{
  Bool, false, ◌||◌, Option, none, some, List, [], ◌∷◌, Text, codes, if◌then◌else◌,
}
use shieldgate.Model.{
  Json, json_null, json_bool, json_number, json_string, json_array, json_object, Items, no_items,
  item, Entries, no_entries, entry,
}
use shieldgate.Scope.{contains}
use shieldgate.Effect.{Env}

-- `redactedResponseFields`, as the list of its keys.
abbrev pub redacted_fields : List Text
redacted_fields =
    codes "client_secret"
    ∷ codes "secret"
    ∷ codes "otpauth_uri"
    ∷ codes "recovery_codes"
    ∷ codes "initial_access_token"
    ∷ []

unfoldable mutual
  unfolding contains

  -- The document that `redact` leaves.
  pub redact : Json → Json
  redact json_null = json_null
  redact (json_bool b) = json_bool b
  redact (json_number n) = json_number n
  redact (json_string s) = json_string s
  redact (json_array items) = json_array (redact_items items)
  redact (json_object entries) = json_object (redact_entries entries)

  pub redact_items : Items → Items
  redact_items no_items = no_items
  redact_items (item j rest) = item (redact j) (redact_items rest)

  pub redact_entries : Entries → Entries
  redact_entries no_entries = no_entries
  redact_entries (entry k j rest) =
      let later = redact_entries rest in
      let kept = redact j in if contains redacted_fields k then later else entry k kept later

unfoldable mutual
  unfolding contains

  -- What `redact` returns.
  pub is_redacted : Json → Bool
  is_redacted json_null = false
  is_redacted (json_bool b) = false
  is_redacted (json_number n) = false
  is_redacted (json_string s) = false
  is_redacted (json_array items) = any_redacted items
  is_redacted (json_object entries) = entry_redacted entries

  pub any_redacted : Items → Bool
  any_redacted no_items = false
  any_redacted (item j rest) = is_redacted j || any_redacted rest

  pub entry_redacted : Entries → Bool
  entry_redacted no_entries = false
  entry_redacted (entry k j rest) =
      contains redacted_fields k || is_redacted j || entry_redacted rest

abbrev pub or_body : Text → Option Text → Text
or_body body none = body
or_body body (some out) = out

module _ (e : Env) where
  abbrev pub redact_parsed : Text → Option Json → Text
  redact_parsed body none = body
  redact_parsed body (some doc) =
      if is_redacted doc then or_body body (e.json_print (redact doc)) else body

  -- `redactResponse`.
  unfoldable pub redact_response : Text → Text
  unfolding is_redacted redact
  redact_response body = redact_parsed body (e.json_parse body)
