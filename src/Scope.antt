-- ===== src/Scope.antt =====
-- internal/services/scope.go, and the list helpers `unionScopes` of session_service_impl.go and
-- `dedupe` of client_metadata.go. A Go map used as a set is the list of its keys.
pub mod Subset
pub mod Words
pub mod Union
use shieldgate.Base.{
  ℕ, Bool, true, false, not, ◌||◌, ◌&&◌, ◌==◌, ltb, leb, if◌then◌else◌, List, [], ◌∷◌, ◌++◌, Text,
  codes, text_eq, fields, trim_space, join_space, is_cons, len,
}
use shieldgate.Model.{Result, ok, err, invalid_scope, Client}

-- `ParseScope`.
unfoldable pub parse_scope : Text → List Text
parse_scope scope = fields scope

-- A key is in the set.
unfoldable pub contains : List Text → Text → Bool
contains [] target = false
contains (s ∷ rest) target = text_eq s target || contains rest target

-- `ScopeContains`.
unfoldable pub scope_contains : Text → Text → Bool
unfolding contains parse_scope
scope_contains scope target = contains (parse_scope scope) target

-- The second loop of `ScopeIsSubset`.
unfoldable pub all_in : List Text → List Text → Bool
unfolding contains
all_in allowed [] = true
all_in allowed (s ∷ rest) = contains allowed s && all_in allowed rest

-- `ScopeIsSubset`.
unfoldable pub scope_is_subset : Text → Text → Bool
unfolding all_in parse_scope
scope_is_subset requested allowed = all_in (parse_scope allowed) (parse_scope requested)

-- `ValidateScopeForClient`.
unfoldable pub validate_scope_for_client : Client → Text → Result Text
unfolding scope_is_subset
validate_scope_for_client client requested =
    let registered = join_space client.scopes in
    if not (is_cons (trim_space requested))
    then ok registered
    else if scope_is_subset requested registered
    then ok (join_space (parse_scope requested))
    else err invalid_scope

-- The loop of `unionScopes` over one list; `out` holds the entries so far, which are those seen.
unfoldable pub add_scopes : List Text → List Text → List Text
unfolding contains
add_scopes out [] = out
add_scopes out (s ∷ rest) = add_scopes (if contains out s then out else out ++ s ∷ []) rest

-- `unionScopes`.
unfoldable pub union_scopes : List Text → List Text → List Text
unfolding add_scopes
union_scopes a b = add_scopes (add_scopes [] a) b

-- The loop of `dedupe`.
unfoldable pub dedupe_from : List Text → List Text → List Text
unfolding contains
dedupe_from out [] = out
dedupe_from out (v ∷ rest) =
    let t = trim_space v in
    dedupe_from (if is_cons t && not (contains out t) then out ++ t ∷ [] else out) rest

-- `dedupe`.
unfoldable pub dedupe : List Text → List Text
unfolding dedupe_from
dedupe values = dedupe_from [] values

-- The loop of `validScopeToken`.
scope_chars : Text → Bool
scope_chars [] = true
scope_chars (r ∷ rest) = not (ltb r 0x21 || ltb 0x7e r || r == b'"' || r == 92) && scope_chars rest

-- `validScopeToken`.
unfoldable pub valid_scope_token : Text → Bool
unfolding scope_chars
valid_scope_token s = not (not (is_cons s) || ltb 128 (len s)) && scope_chars s

abbrev pub scope_openid : Text
scope_openid = codes "openid"

abbrev pub scope_profile : Text
scope_profile = codes "profile"

abbrev pub scope_email : Text
scope_email = codes "email"

abbrev pub scope_phone : Text
scope_phone = codes "phone"
