-- ===== src/Device/Grant.antt =====
-- The device grant: successful exchanges, and exchanges after them.
use shieldgate.Base.{
  ℕ, suc, Any, ◌≡◌, refl, ap, ◌∙◌, subst, true, false, ◌==◌, inl, inr, Option, none, some, Text,
  arith, All, Any-All, All-delete_rows, text_eq→eq, Bool-cases, if◌then◌else◌,
}
use shieldgate.Model.{
  Uuid, Time, Error, Result, ok, err, is_expired, invalid_grant, device_code_not_found, Client,
  DeviceCode, DeviceCodeStatus, pending, approved, denied, other_status, TokenResponse,
  expired_device_code,
}
use shieldgate.Effect.{Env, Db, World, clock, throw, ◌>>=◌}
use shieldgate.Effect.Keeps.{Rely}
use shieldgate.Effect.Inversion.{
  bind-eq-ok, wrap-eq-ok, guard-eq-ok, throw-ne-ok, clock-eq-ok, statement-eq-ok,
}
use shieldgate.Repo.Statements.{write}
use shieldgate.Repo.Outcomes.{seen, find-eq-ok}
use shieldgate.Repo.Reads.{after_read, find-world}
use shieldgate.Repo.DeviceCode
use shieldgate.Repo.DeviceCode.{has_device_code, save}
use shieldgate.Auth.Issue.{issue_tokens}
use shieldgate.Auth.IssueKeeps.{issue_tokens-Keeps}
use shieldgate.Device.Flow.{
  polled_within, device_context, drop_with, redeem_approved, by_status, poll, exchange_device_code,
}

-- The device code is not stored.
abbrev pub Gone : Uuid → Text → Db → Type 0
Gone tenant code d = All (λ c. has_device_code tenant code c ≡ false) d.device_codes

module _ (e : Env) (tenant : Uuid) (client : Client) where
  -- The tokens of an approved code: its user, scope and family, and the code was deleted before.
  pub record Redeems (dc : DeviceCode) (response : TokenResponse) (w' : World) : Type 0 where
    pub user : Uuid
    pub is_approved : dc.status ≡ approved
    pub approved_by : dc.user_id ≡ some user
    pub before : World
    pub deleted : Gone tenant dc.device_code before.db
    pub issue :
        issue_tokens e tenant client user dc.scope dc.id true true
          (device_context e tenant dc)
          before
        ≡ (ok response, w')

  delete-Gone :
      (code : Text) (w : World) {w' : World}
      → DeviceCode.delete e tenant code w ≡ (ok tt, w')
      → Gone tenant code w'.db
  unfolding DeviceCode.delete write
  delete-Gone code w h =
      let p = has_device_code tenant code in
      let rows = (seen e w).device_codes in
      let (_, db_eq, _) = statement-eq-ok e _ w (wrap-eq-ok _ _ w h) in
      subst (Gone tenant code) db_eq (rw (e.database.delete_lem p rows) (All-delete_rows p rows))

  redeem-eq-ok :
      (dc : DeviceCode) (u : Option Uuid) (w : World) {response : TokenResponse} {w' : World}
      → dc.status ≡ approved
      → dc.user_id ≡ u
      → redeem_approved e tenant client dc u w ≡ (ok response, w')
      → Redeems dc response w'
  unfolding redeem_approved
  redeem-eq-ok dc none w s u h = absurd (throw-ne-ok _ w h)
  redeem-eq-ok dc (some user) w s u h =
      let (_, w₁, removed, h₁) = bind-eq-ok _ _ w h in
      record {
        user = user;
        is_approved = s;
        approved_by = u;
        before = w₁;
        deleted = delete-Gone dc.device_code w (wrap-eq-ok _ _ w removed);
        issue = h₁;
      }

  drop_with-ne-ok :
      (dc : DeviceCode) (x : Error) (w : World) {response : TokenResponse} {w' : World}
      → drop_with e tenant client dc (throw x) w ≡ (ok response, w')
      → ⊥
  unfolding drop_with
  drop_with-ne-ok dc x w h = let (_, w₁, _, k) = bind-eq-ok _ _ w h in throw-ne-ok _ w₁ k

  by_status-eq-ok :
      (dc : DeviceCode) (s : DeviceCodeStatus) (w : World) {response : TokenResponse} {w' : World}
      → dc.status ≡ s
      → by_status e tenant client dc s w ≡ (ok response, w')
      → Redeems dc response w'
  unfolding by_status
  by_status-eq-ok dc pending w s h = absurd (throw-ne-ok _ w h)
  by_status-eq-ok dc denied w s h = absurd (drop_with-ne-ok dc _ w h)
  by_status-eq-ok dc approved w s h = redeem-eq-ok dc dc.user_id w s refl h
  by_status-eq-ok dc (other_status t) w s h = absurd (throw-ne-ok _ w h)

  poll-eq-ok :
      (dc : DeviceCode) (w : World) {response : TokenResponse} {w' : World}
      → poll e tenant client dc w ≡ (ok response, w')
      → (polled_within dc.last_polled_at dc.interval (e.now w.calls) ≡ false)
        × Redeems dc response w'
  unfolding poll
  poll-eq-ok dc w h =
      let (now, w₁, timed, h₁) = bind-eq-ok _ _ w h in
      let (_, w₂, _, h₂) = bind-eq-ok _ _ w₁ h₁ in
      elim (Bool-cases (polled_within dc.last_polled_at dc.interval now)) [
        | inl fast ↦ absurd (throw-ne-ok _ w₂ (rw fast at h₂))
        | inr slow ↦ (
          ap (polled_within dc.last_polled_at dc.interval) (clock-eq-ok e w timed).0 ∙ slow,
          by_status-eq-ok dc dc.status w₂ refl (rw slow at h₂),
        )
      ]

  -- A successful exchange: the code that was stored when it was read, at the times read next.
  pub record Granted (code : Text) (w w' : World) (response : TokenResponse) : Type 0 where
    pub dc : DeviceCode
    pub matches : has_device_code tenant (e.sha256_base64 code) dc ≡ true
    pub was_stored : Any (λ c. c ≡ dc) (seen e w).device_codes
    pub its_client : dc.client_id ≡ client.id
    pub in_time : is_expired (e.now (suc w.calls)) dc.expires_at ≡ false
    pub not_too_fast :
        polled_within dc.last_polled_at dc.interval (e.now (suc (suc w.calls))) ≡ false
    pub redeems : Redeems dc response w'

  timed-eq-ok :
      (dc : DeviceCode) (w w₁ : World) (now : Time) {response : TokenResponse} {w' : World}
      → clock e w ≡ (ok now, w₁)
      → (if is_expired now dc.expires_at
            then drop_with e tenant client dc (throw expired_device_code)
            else poll e tenant client dc)
          w₁
        ≡ (ok response, w')
      → (is_expired (e.now w.calls) dc.expires_at ≡ false)
        × (polled_within dc.last_polled_at dc.interval (e.now (suc w.calls)) ≡ false)
        × Redeems dc response w'
  timed-eq-ok dc w w₁ now timed h = elim (Bool-cases (is_expired now dc.expires_at)) [
    | inl old ↦ absurd (drop_with-ne-ok dc _ w₁ (rw old at h))
    | inr young ↦
        let (slow, redeems) = poll-eq-ok dc w₁ (rw young at h) in
        let (now_eq, w₁_eq) = clock-eq-ok e w timed in
        (
          ap (λ n. is_expired n dc.expires_at) now_eq ∙ young,
          ap (λ (v : World). polled_within dc.last_polled_at dc.interval (e.now v.calls)) w₁_eq
              ∙ slow,
          redeems,
        )
  ]

  -- A successful device code exchange looked up a device code of this tenant and client that was
  -- then stored, that had not expired at the time read next, was not polled within its interval at
  -- the time read after it, and was approved by a user; its row was deleted before the tokens were
  -- issued, and the answer is that of `issueTokens` for that user and the code's scope and family.
  pub exchange-Granted :
      (code : Text) (w : World) {response : TokenResponse} {w' : World}
      → exchange_device_code e tenant client code w ≡ (ok response, w')
      → Granted code w w' response
  unfolding exchange_device_code DeviceCode.get_by_device_code
  exchange-Granted code w h =
      let (dc, w₁, read, h₁) = bind-eq-ok _ _ w h in
      let p = has_device_code tenant (e.sha256_base64 code) in
      let found = wrap-eq-ok _ _ w read in
      let (matches, stored, _) =
        find-eq-ok e (λ d. d.device_codes) p device_code_not_found w found in
      let (_, w₂, bound, h₂) = bind-eq-ok _ _ w₁ h₁ in
      let (now, w₃, timed, h₃) = bind-eq-ok _ _ w₂ h₂ in
      let (young, slow, redeems) = timed-eq-ok dc w₂ w₃ now timed h₃ in
      let its_client = guard-eq-ok (dc.client_id == client.id) invalid_grant w₁ bound in
      let at₂ : after_read e w ≡ w₂ =
        find-world e (λ d. d.device_codes) p device_code_not_found w found ∙ its_client.1 in
      record {
        dc = dc;
        matches = matches;
        was_stored = stored;
        its_client = eq_of dc.client_id client.id its_client.0;
        in_time = ap (λ (v : World). is_expired (e.now v.calls) dc.expires_at) at₂ ∙ young;
        not_too_fast =
            ap (λ (v : World). polled_within dc.last_polled_at dc.interval (e.now (suc v.calls)))
              at₂
            ∙ slow;
        redeems = redeems;
      }
    where
      eq_of : (a b : ℕ) → (a == b) ≡ true → a ≡ b
      eq_of a b k = ground arith

module _ (e : Env) (tenant : Uuid) where
  -- A device code that is not stored is refused.
  get-Gone :
      (code : Text) (w : World) (dc : DeviceCode) {w' : World}
      → Gone tenant code (e.others w.calls w.db)
      → DeviceCode.get_by_device_code e tenant code w ≡ (ok dc, w')
      → ⊥
  unfolding DeviceCode.get_by_device_code
  get-Gone code w dc gone h =
      let (matches, there, _) =
        find-eq-ok e (λ d. d.device_codes) (has_device_code tenant code) device_code_not_found w
          h in
      cc (Any-All _ _ dc gone there, matches)

  refused :
      (client : Client) (code : Text) (w : World) (r : Result DeviceCode) (w₁ : World)
      → Gone tenant (e.sha256_base64 code) (e.others w.calls w.db)
      → DeviceCode.get_by_device_code e tenant (e.sha256_base64 code) w ≡ (r, w₁)
      → (exchange_device_code e tenant client code w).0 ≡ err invalid_grant
  unfolding exchange_device_code ◌>>=◌
  refused client code w (ok dc) w₁ gone h = absurd (get-Gone (e.sha256_base64 code) w dc gone h)
  refused client code w (err x) w₁ gone h = rw h refl

  granted-Gone :
      (client : Client) (code : Text) (w : World) {response : TokenResponse} {w' : World}
      → Rely e (Gone tenant (e.sha256_base64 code))
      → exchange_device_code e tenant client code w ≡ (ok response, w')
      → Gone tenant (e.sha256_base64 code) w'.db
  granted-Gone client code w rely h =
      let g = exchange-Granted e tenant client code w h in
      let r = g.redeems in
      let same : g.dc.device_code ≡ e.sha256_base64 code =
        same_code g.dc (e.sha256_base64 code) g.matches in
      let gone = subst (λ c. Gone tenant c r.before.db) same r.deleted in
      subst (λ (v : Result TokenResponse × World). Gone tenant (e.sha256_base64 code) v.1.db)
        r.issue
        ((issue_tokens-Keeps e rely (λ d rows h. h) (λ d rows h. h) tenant client r.user g.dc.scope
            g.dc.id true true (device_context e tenant g.dc)).at
          r.before gone)
    where
      same_code :
          (dc : DeviceCode) (c : Text) → has_device_code tenant c dc ≡ true → dc.device_code ≡ c
      same_code dc c k = elim (Bool-cases (dc.tenant_id == tenant)) [
        | inl t ↦ text_eq→eq dc.device_code c (rw t at k)
        | inr f ↦ absurd (cc (rw f at k))
      ]

  -- Once a device code has bought tokens, every later exchange of it at the same tenant fails with
  -- `ErrInvalidGrant`, whichever client polls, as long as no other request stores a code again that
  -- is not stored.
  pub exchange_device_once :
      (client client' : Client) (code : Text) (w : World) {response : TokenResponse} {w' : World}
      → Rely e (Gone tenant (e.sha256_base64 code))
      → exchange_device_code e tenant client code w ≡ (ok response, w')
      → (exchange_device_code e tenant client' code w').0 ≡ err invalid_grant
  exchange_device_once client client' code w {response} {w'} rely h =
      let gone = rely.at w'.calls w'.db (granted-Gone client code w rely h) in
      let (r, w₁) = DeviceCode.get_by_device_code e tenant (e.sha256_base64 code) w' in
      refused client' code w' r w₁ gone refl
