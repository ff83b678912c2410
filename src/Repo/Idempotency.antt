-- ===== src/Repo/Idempotency.antt =====
-- internal/repo/gorm/idempotency.go.
use shieldgate.Base.{
  ℕ, Bool, true, false, ◌&&◌, ◌||◌, ◌==◌, ltb, Option, none, some, List, Text, text_eq, is_cons,
}
use shieldgate.Model.{Uuid, Time, wrapped, resource_conflict, IdempotencyKey}
use shieldgate.Effect.{Env, Db, Action, clock, statement, wrap, pure, ◌>>=◌}
use shieldgate.Repo.Statements.{find, write, change}

-- The same tenant, principal and key.
abbrev pub is_same_key : IdempotencyKey → IdempotencyKey → Bool
is_same_key k r =
    r.tenant_id == k.tenant_id && text_eq r.principal k.principal && text_eq r.key k.key

-- The condition of the update in `Begin`: the record expired, or its request was abandoned.
abbrev pub is_dead : Time → Time → IdempotencyKey → Bool
is_dead now stale_before r =
    ltb r.expires_at now || (r.status_code == 0 && ltb r.created_at stale_before)

-- The columns that the update assigns.
abbrev pub take_over : IdempotencyKey → IdempotencyKey → IdempotencyKey
take_over k r = record r {
  id = k.id;
  method = k.method;
  path = k.path;
  request_hash = k.request_hash;
  status_code = k.status_code;
  response_content_type = k.response_content_type;
  response_body = k.response_body;
  created_at = k.created_at;
  expires_at = k.expires_at;
}

abbrev put_keys : List IdempotencyKey → Db → Db
put_keys rows d = record d { idempotency_keys = rows }

abbrev complete_with : Text → Text → ℕ → IdempotencyKey → IdempotencyKey
complete_with content_type body status r = record r {
  status_code = status;
  response_content_type = content_type;
  response_body = body;
}

module _ (e : Env) where
  -- Insert, or take over a dead record: whether a row was written, and the tables.
  abbrev pub upsert : Option IdempotencyKey → Time → Time → IdempotencyKey → Db → Bool × Db
  upsert none now stale k d = (true, put_keys (e.database.insert k d.idempotency_keys) d)
  upsert (some _) now stale k d =
      let (rows, changed) =
        e.database.update (λ r. is_same_key k r && is_dead now stale r) (take_over k)
          d.idempotency_keys in
      (is_cons changed, put_keys rows d)

  -- The statement of `Begin`.
  unfoldable pub claim_key : Time → Time → IdempotencyKey → Db → Bool × Db
  unfolding text_eq
  claim_key now stale k d =
      upsert (e.database.first (is_same_key k) d.idempotency_keys) now stale k d

  abbrev pub existing_key : IdempotencyKey → Bool → Action (Option IdempotencyKey)
  existing_key k true = pure none
  existing_key k false =
      find e (λ d. d.idempotency_keys) (is_same_key k) resource_conflict >>= (λ r. pure (some r))

  -- `Begin`: nothing if the record was stored, and the record in its way otherwise.
  unfoldable pub begin_key : IdempotencyKey → Time → Action (Option IdempotencyKey)
  unfolding text_eq
  begin_key k stale = do
    now ← clock e
    stored ← wrap wrapped (statement e (claim_key now stale (record k { created_at = now })))
    existing_key k stored

  -- `Complete`.
  unfoldable pub complete_key : Uuid → ℕ → Text → Text → Action (Unit {0})
  complete_key id status content_type body = do
    rows ←
        change e (λ d. d.idempotency_keys) put_keys (λ r. r.id == id)
          (complete_with content_type body status)
    pure tt

  -- `Delete`.
  unfoldable pub delete_key : Uuid → Action (Unit {0})
  delete_key id = write e λ d. put_keys (e.database.delete (λ r. r.id == id) d.idempotency_keys) d

  unfoldable pub delete_expired_keys : Action (Unit {0})
  delete_expired_keys = do
    now ← clock e
    write e λ d. put_keys (e.database.delete (λ r. ltb r.expires_at now) d.idempotency_keys) d
