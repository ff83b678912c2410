-- ===== src/Clients/Cache.antt =====
-- internal/services/client_secret_cache.go. The map is a list with one entry for each key; the mutex
-- makes each of its reads and writes one step. No cache is `none`.
use shieldgate.Base.{
  ℕ, ◌+◌, ◌*◌, ◌==◌, leb, ltb, Bool, false, ◌&&◌, Option, none, some, List, [], ◌∷◌, Text, length,
  text_eq, delete_rows, if◌then◌else◌,
}
use shieldgate.Model.{Uuid, Time}
use shieldgate.Effect.{Env}

pub record Entry : Type 0 where
  pub client_id : Uuid
  pub stored_hash : Text
  pub mac : Text
  pub expires : Time

-- Ten minutes.
abbrev pub cache_ttl : Time
cache_ttl = 600 * 1_000_000_000

abbrev pub max_cached_client_secrets : ℕ
max_cached_client_secrets = 10_000

abbrev pub has_key : Uuid → Text → Entry → Bool
has_key id hash entry = entry.client_id == id && text_eq entry.stored_hash hash

unfoldable pub lookup : Uuid → Text → List Entry → Option Entry
lookup id hash [] = none
lookup id hash (entry ∷ rest) =
    let found = lookup id hash rest in if has_key id hash entry then some entry else found

module _ (e : Env) where
  -- A found entry that is still fresh has the secret's MAC.
  abbrev agrees : Time → Text → Option Entry → Bool
  agrees now secret none = false
  agrees now secret (some entry) = ltb now entry.expires && text_eq entry.mac (e.secret_mac secret)

  -- `verified`.
  unfoldable pub verified : Time → Option (List Entry) → Uuid → Text → Text → Bool
  unfolding lookup
  verified now none id hash secret = false
  verified now (some entries) id hash secret = agrees now secret (lookup id hash entries)

  abbrev pub fresh_entry : Time → Uuid → Text → Text → Entry
  fresh_entry now id hash secret = record {
    client_id = id;
    stored_hash = hash;
    mac = e.secret_mac secret;
    expires = now + cache_ttl;
  }

  -- `remember`: a full cache is emptied first.
  unfoldable pub remember : Time → Option (List Entry) → Uuid → Text → Text → Option (List Entry)
  remember now none id hash secret = none
  remember now (some entries) id hash secret =
      let kept : List Entry =
        if leb max_cached_client_secrets (length entries) then [] else entries in
      some (fresh_entry now id hash secret ∷ delete_rows (has_key id hash) kept)
