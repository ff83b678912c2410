-- ===== src/Middleware/Once.antt =====
-- A request whose key is in use does not reach the handlers.
use shieldgate.Base.{
  suc, ◌+◌, ◌-◌, ◌≡◌, refl, sym, ap, ◌∙◌, subst, Bool, true, false, not, ◌&&◌, ◌||◌, ltb, inl, inr,
  Option, none, some, map, Text, codes, All, Any, All-Any, is_cons, len, text_eq, select_rows_none,
  Bool-cases, if◌then◌else◌,
}
use shieldgate.Model.{Uuid, Time, Result, ok, err, IdempotencyKey}
use shieldgate.Effect.{Env, Db, World, Action, Selects, clock, fresh_uuid, attempt, pure, ◌>>=◌}
use shieldgate.Repo.Idempotency.{
  is_same_key, is_dead, take_over, upsert, claim_key, existing_key, begin_key,
}
use shieldgate.Effect.Inversion.{bind-eq-ok, pure-eq-ok, clock-eq-ok, statement-eq-ok, wrap-eq-ok}
use shieldgate.Repo.Outcomes.{seen}
use shieldgate.Middleware.Replies.{Request, Response, Reply}
use shieldgate.Middleware.Idempotency.{
  idempotency_stale_after, max_idempotent_body_bytes, valid_idempotency_key, new_key, after_begin,
  with_body, with_key, idempotency,
}

-- A record of this tenant, principal and key is stored, and every such record is neither expired nor
-- abandoned.
pub record InUse (k : IdempotencyKey) (now stale : Time) (d : Db) : Type 0 where
  pub stored : Any (λ r. is_same_key k r ≡ true) d.idempotency_keys
  pub alive : All (λ r. (is_same_key k r && is_dead now stale r) ≡ false) d.idempotency_keys

if-same :
    (b : Bool) (m m' n n' : Action Reply) (w : World)
    → m w ≡ m' w
    → n w ≡ n' w
    → (if b then m else n) w ≡ (if b then m' else n') w
if-same true m m' n n' w h k = h
if-same false m m' n n' w h k = k

if-else :
    (b : Bool) (m m' n n' : Action Reply) (w : World)
    → b ≡ false
    → n w ≡ n' w
    → (if b then m else n) w ≡ (if b then m' else n') w
if-else true m m' n n' w h k = cc h
if-else false m m' n n' w h k = k

module _ (e : Env) where
  upsert-InUse :
      (found : Option IdempotencyKey) (k : IdempotencyKey) (now stale : Time) (d : Db)
      → InUse k now stale d
      → Selects (is_same_key k) d.idempotency_keys found
      → (upsert e found now stale k d).0 ≡ false
  upsert-InUse none k now stale d used absent =
      let (r, missed, same) = All-Any _ _ d.idempotency_keys absent used.stored in
      absurd (cc (missed, same))
  upsert-InUse (some r) k now stale d used there =
      let p = λ (r : IdempotencyKey). is_same_key k r && is_dead now stale r in
      let rows = d.idempotency_keys in
      ap (λ x. is_cons x.1) (e.database.update_lem p (take_over k) rows)
      ∙ ap (λ rs. is_cons (map (take_over k) rs)) (select_rows_none p rows used.alive)

  claim_key-InUse :
      (k : IdempotencyKey) (now stale : Time) (d : Db)
      → InUse k now stale d
      → (claim_key e now stale k d).0 ≡ false
  unfolding claim_key
  claim_key-InUse k now stale d used =
      upsert-InUse _ k now stale d used (e.database.first_lem (is_same_key k) d.idempotency_keys)

  abbrev stamped : IdempotencyKey → Time → IdempotencyKey
  stamped k now = record k { created_at = now }

  existing-ne-none :
      (k : IdempotencyKey) (w : World) {w' : World} → existing_key e k false w ≡ (ok none, w') → ⊥
  existing-ne-none k w h =
      let (r, w₁, _, h₁) = bind-eq-ok _ _ w h in
      let (same, _) = pure-eq-ok (some r) w₁ h₁ in cc same

  -- `Begin` does not store a record where one is in use.
  begin_key-InUse :
      (k : IdempotencyKey) (stale : Time) (w : World) {w' : World}
      → InUse (stamped k (e.now w.calls)) (e.now w.calls) stale (e.others (suc w.calls) w.db)
      → begin_key e k stale w ≡ (ok none, w')
      → ⊥
  unfolding begin_key
  begin_key-InUse k stale w {w'} used h =
      let (now, w₁, timed, h₁) = bind-eq-ok _ _ w h in
      let (now_eq, w₁_eq) = clock-eq-ok e w timed in
      let (stored, w₂, stated, h₂) = bind-eq-ok _ _ w₁ h₁ in
      let (claimed, _, _) = statement-eq-ok e _ w₁ (wrap-eq-ok _ _ w₁ stated) in
      let refused =
        claim_key-InUse (stamped k (e.now w.calls)) (e.now w.calls) stale
          (e.others (suc w.calls) w.db) used in
      let is_false : stored ≡ false =
        sym claimed
        ∙ ap (λ n. (claim_key e n stale (stamped k n) (seen e w₁)).0) (sym now_eq)
        ∙ ap
            (λ (v : World).
              (claim_key e (e.now w.calls) stale (stamped k (e.now w.calls)) (seen e v)).0)
            (sym w₁_eq)
        ∙ refused in
      existing-ne-none k w₂ (subst (λ b. existing_key e k b w₂ ≡ (ok none, w')) is_false h₂)

  -- The handlers do not matter where `Begin` stored nothing.
  after_begin-same :
      (k : IdempotencyKey) (handler other : Action Response) (r : Result (Option IdempotencyKey))
      (w : World)
      → ¬ (r ≡ ok none)
      → after_begin e k handler r w ≡ after_begin e k other r w
  unfolding after_begin
  after_begin-same k handler other (err x) w refused = refl
  after_begin-same k handler other (ok (some r)) w refused = refl
  after_begin-same k handler other (ok none) w refused = absurd (refused refl)

  module _ (tenant : Uuid) (body : Text) (r : Request) (ttl : Time) (w : World) where
    -- The record that the request brings, and the times of its checks.
    abbrev pub brought : IdempotencyKey
    brought =
        stamped (new_key e (e.new_uuid w.calls) tenant r body (e.now (suc w.calls) + ttl))
          (e.now (suc (suc (suc w.calls))))

    abbrev pub IsInUse : Type 0
    IsInUse =
        InUse brought (e.now (suc (suc (suc w.calls))))
          (e.now (suc (suc w.calls)) - idempotency_stale_after)
          (e.others (suc (suc (suc (suc w.calls)))) w.db)

    with_body-same :
        (handler other : Action Response)
        → IsInUse
        → with_body e ttl r tenant handler (some body) w
          ≡ with_body e ttl r tenant other (some body) w
    unfolding with_body ◌>>=◌ fresh_uuid clock attempt pure
    with_body-same handler other used =
        elim (Bool-cases (ltb max_idempotent_body_bytes (len body))) [
          | inl large ↦ rw large refl
          | inr small ↦
              let k = new_key e (e.new_uuid w.calls) tenant r body (e.now (suc w.calls) + ttl) in
              let stale = e.now (suc (suc w.calls)) - idempotency_stale_after in
              let w₃ : World = record w { calls = suc (suc (suc w.calls)) } in
              let (found, w₄) = begin_key e k stale w₃ in
              rw small (
                after_begin-same k handler other found w₄
                  (λ h. begin_key-InUse k stale w₃ used (λ i. (h i, w₄))))
        ]

  -- For a POST request with an Idempotency-Key, a tenant and a readable body, if the tables that
  -- `Begin` meets hold a record of the request's tenant, principal and key, and every such record
  -- is neither expired nor abandoned, the middleware gives the same reply, and leaves the same
  -- tables, whatever the handlers behind it are: they are not run.
  pub idempotency-same :
      (ttl : Time) (r : Request) (handler other : Action Response) (tenant : Uuid) (body : Text)
      (w : World)
      → text_eq r.method (codes "POST") ≡ true
      → is_cons r.idempotency_key ≡ true
      → r.tenant ≡ some tenant
      → r.body ≡ some body
      → IsInUse tenant body r ttl w
      → idempotency e ttl r handler w ≡ idempotency e ttl r other w
  unfolding idempotency with_key pure
  idempotency-same ttl r handler other tenant body w post given of_tenant read used =
      if-else (not (text_eq r.method (codes "POST")) || not (is_cons r.idempotency_key)) _ _ _ _ w
        (rw (post, given) refl)
        (if-same (not (valid_idempotency_key r.idempotency_key)) _ _ _ _ w refl (
          subst (λ o. with_key e ttl r handler o w ≡ with_key e ttl r other o w) (sym of_tenant)
            (subst (λ o. with_body e ttl r tenant handler o w ≡ with_body e ttl r tenant other o w)
              (sym read) (with_body-same tenant body r ttl w handler other used))))
