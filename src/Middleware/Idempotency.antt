-- ===== src/Middleware/Idempotency.antt =====
-- internal/middleware/idempotency.go. The handlers behind the middleware are an action, whose error is
-- a panic; the log lines are left out.
use shieldgate.Base.{
  ℕ, ◌+◌, ◌-◌, ◌*◌, ◌==◌, leb, ltb, Bool, true, false, not, ◌&&◌, ◌||◌, Option, none, some, [], ◌∷◌,
  ◌++◌, Text, codes, is_cons, len, text_eq, if◌then◌else◌,
}
use shieldgate.Model.{
  Uuid, Time, Error, wrapped, resource_conflict, Result, ok, err, IdempotencyKey,
}
use shieldgate.Effect.{Env, Action, clock, fresh_uuid, attempt, throw, pure, ◌>>=◌, ◌>>◌}
use shieldgate.Repo.Idempotency.{begin_key, complete_key, delete_key}
use shieldgate.Middleware.Redact.{redact_response}
use shieldgate.Middleware.Replies.{Request, Response, Reply, failed, replayed, passed}

abbrev pub max_idempotent_body_bytes : ℕ
max_idempotent_body_bytes = 1_048_576

-- A minute.
abbrev pub idempotency_stale_after : Time
idempotency_stale_after = 60 * 1_000_000_000

-- The loop of `validIdempotencyKey`, over code points: one outside ASCII has bytes outside it too.
unfoldable pub visible_ascii : Text → Bool
visible_ascii [] = true
visible_ascii (c ∷ s) = not (ltb c 0x21 || ltb 0x7e c) && visible_ascii s

-- `validIdempotencyKey`.
unfoldable pub valid_idempotency_key : Text → Bool
unfolding visible_ascii
valid_idempotency_key key = not (not (is_cons key) || ltb 255 (len key)) && visible_ascii key

-- `errors.Is(err, ErrResourceConflict)`.
unfoldable pub is_conflict : Error → Bool
is_conflict resource_conflict = true
is_conflict (wrapped x) = is_conflict x
is_conflict _ = false

abbrev still_processed : Reply
still_processed = failed 409 (codes "A request with this Idempotency-Key is still being processed")

abbrev or_octets : Text → Text
or_octets t = if is_cons t then t else codes "application/octet-stream"

-- `replayOrReject`, with `InProgress`.
unfoldable pub replay_or_reject : IdempotencyKey → Text → Reply
unfolding text_eq
replay_or_reject existing hash =
    if not (text_eq existing.request_hash hash)
    then failed 422 (codes "Idempotency-Key was already used with a different request")
    else if existing.status_code == 0
    then still_processed
    else replayed (record {
      status = existing.status_code;
      content_type = or_octets existing.response_content_type;
      body = existing.response_body;
    })

module _ (e : Env) where
  abbrev client_principal : Option Text → Text
  client_principal none = codes "anonymous"
  client_principal (some id) = codes "client:" ++ id

  -- `idempotencyPrincipal`.
  unfoldable pub idempotency_principal : Option Uuid → Option Text → Text
  idempotency_principal none client = client_principal client
  idempotency_principal (some id) client =
      if id == 0 then client_principal client else codes "user:" ++ e.uuid_string id

  -- `requestFingerprint`.
  unfoldable pub request_fingerprint : Text → Text → Text → Text
  request_fingerprint method uri body = e.sha256_hex (method ++ (0 ∷ (uri ++ (0 ∷ body))))

  abbrev pub new_key : Uuid → Uuid → Request → Text → Time → IdempotencyKey
  new_key id tenant r body expires = record {
    id = id;
    tenant_id = tenant;
    principal = idempotency_principal r.user r.client;
    key = r.idempotency_key;
    method = r.method;
    path = r.uri;
    request_hash = request_fingerprint r.method r.uri body;
    status_code = 0;
    response_content_type = [];
    response_body = [];
    created_at = 0;
    expires_at = expires;
  }

  -- The deferred release of the key.
  unfoldable pub release : Uuid → Action (Unit {0})
  release id = attempt (delete_key e id) >> pure tt

  abbrev after_completion : Uuid → Result (Unit {0}) → Action (Unit {0})
  after_completion id (ok _) = pure tt
  after_completion id (err _) = release id

  -- What follows the handlers.
  unfoldable pub after_handler : Uuid → Result Response → Action Reply
  after_handler id (err panic) = release id >> throw panic
  after_handler id (ok r) =
      if leb 500 r.status || ltb max_idempotent_body_bytes (len r.body)
      then release id >> pure (passed r)
      else (attempt (complete_key e id r.status r.content_type (redact_response e r.body))
          >>= (λ done. after_completion id done >> pure (passed r)))

  -- The switch over the result of `Begin`.
  unfoldable pub after_begin :
      IdempotencyKey → Action Response → Result (Option IdempotencyKey) → Action Reply
  unfolding is_conflict
  after_begin k handler (err x) =
      if is_conflict x
      then pure still_processed
      else pure (failed 500 (codes "Internal server error"))
  after_begin k handler (ok (some existing)) = pure (replay_or_reject existing k.request_hash)
  after_begin k handler (ok none) = attempt handler >>= after_handler k.id

  unfoldable pub with_body : Time → Request → Uuid → Action Response → Option Text → Action Reply
  with_body ttl r tenant handler none = pure (failed 400 (codes "Failed to read request body"))
  with_body ttl r tenant handler (some body) =
      if ltb max_idempotent_body_bytes (len body)
      then pure (failed 413 (codes "Request body too large"))
      else (do
        id ← fresh_uuid e
        now ← clock e
        begun ← clock e
        let k = new_key id tenant r body (now + ttl)
        existing ← attempt (begin_key e k (begun - idempotency_stale_after))
        after_begin k handler existing)

  unfoldable pub with_key : Time → Request → Action Response → Option Uuid → Action Reply
  with_key ttl r handler none = pure (failed 401 (codes "Invalid tenant context"))
  with_key ttl r handler (some tenant) = with_body ttl r tenant handler r.body

  -- `Idempotency`: the request's reply.
  unfoldable pub idempotency : Time → Request → Action Response → Action Reply
  unfolding valid_idempotency_key text_eq
  idempotency ttl r handler =
      if not (text_eq r.method (codes "POST")) || not (is_cons r.idempotency_key)
      then (handler >>= (λ answer. pure (passed answer)))
      else if not (valid_idempotency_key r.idempotency_key)
      then pure (failed 400 (codes "Idempotency-Key must be 1-255 visible ASCII characters"))
      else with_key ttl r handler r.tenant
