-- ===== src/Auth/CodeGrant.antt =====
-- The authorization code grant: successful exchanges.
use shieldgate.Base.{
  ℕ, suc, ◌≡◌, ap, ◌∙◌, subst, true, false, Text, arith, Any, is_cons, text_eq→eq, ◌⊎◌, Bool-cases,
  inl, inr,
}
use shieldgate.Model.{
  Uuid, Error, Result, ok, err, is_expired, AuthorizationCode, TokenResponse, Client,
}
use shieldgate.Effect.{Env, World, Action, attempt, ◌>>=◌}
use shieldgate.Effect.Inversion.{clock-eq-ok, bind-eq-ok, guard-eq-ok, throw-ne-ok, attempt-eq-ok}
use shieldgate.Repo.AuthCode.{Consumed, consumed, already_used, has_unused_code, consume}
use shieldgate.Repo.CodeUse.{Spent, consume-eq-consumed}
use shieldgate.Auth.Claims.{validate_pkce}
use shieldgate.Auth.Issue.{issue_tokens}
use shieldgate.Auth.Exchange.{
  code_context, check_pkce, redeem, drop_expired, on_consumed, exchange_authorization_code,
}

module _ (e : Env) (tenant : Uuid) (code client_id redirect verifier : Text) where
  abbrev exchange : Action TokenResponse
  exchange = exchange_authorization_code e tenant code client_id redirect verifier

  -- No PKCE challenge was given, or the verifier meets it.
  abbrev pub MeetsChallenge : AuthorizationCode → Type 0
  MeetsChallenge c =
      (is_cons c.code_challenge ≡ false)
      ⊎ ((is_cons verifier ≡ true)
          × (validate_pkce e verifier c.code_challenge c.code_challenge_method ≡ true))

  -- The tokens of the code's user, scope and family were issued to its client.
  abbrev pub Issues : AuthorizationCode → TokenResponse → World → Type 0
  Issues c response w' =
      (client : Client) × (w : World) × (issue_tokens e tenant client c.user_id c.scope c.id true
          true (code_context e tenant c) w
        ≡ (ok response, w'))

  -- The checks that a code has to pass.
  pub record Redeemable (c : AuthorizationCode) : Type 0 where
    pub its_client : e.uuid_string c.client_id ≡ client_id
    pub its_redirect : c.redirect_uri ≡ redirect
    pub verified : MeetsChallenge c

  check_pkce-eq-ok :
      (c : AuthorizationCode) (w : World) {w' : World}
      → check_pkce e tenant c verifier w ≡ (ok tt, w')
      → MeetsChallenge c
  unfolding check_pkce ◌>>=◌
  check_pkce-eq-ok c w h = ground arith

  -- The tokens of a redeemed code are issued to its user, with its scope, in its family.
  redeem-eq-ok :
      (c : AuthorizationCode) (w : World) {response : TokenResponse} {w' : World}
      → redeem e tenant code client_id redirect verifier c w ≡ (ok response, w')
      → Redeemable c × Issues c response w'
  unfolding redeem
  redeem-eq-ok c w h =
      let (_, w₁, client_ok, h₁) = bind-eq-ok _ _ w h in
      let (_, w₂, redirect_ok, h₂) = bind-eq-ok _ _ w₁ h₁ in
      let (_, w₃, pkce_ok, h₃) = bind-eq-ok _ _ w₂ h₂ in
      let (client, w₄, loaded, h₄) = bind-eq-ok _ _ w₃ h₃ in
      (
        record {
          its_client = text_eq→eq _ _ (guard-eq-ok _ _ w client_ok).0;
          its_redirect = text_eq→eq _ _ (guard-eq-ok _ _ w₁ redirect_ok).0;
          verified = check_pkce-eq-ok c w₂ pkce_ok;
        },
        (client, w₄, h₄),
      )

  drop_expired-ne-ok :
      (w : World) {response : TokenResponse} {w' : World}
      → drop_expired e tenant code client_id redirect verifier w ≡ (ok response, w')
      → ⊥
  unfolding drop_expired
  drop_expired-ne-ok w h = let (_, w₁, _, k) = bind-eq-ok _ _ w h in throw-ne-ok _ w₁ k

  -- A successful exchange: the code that it used.
  pub record Redeemed (w w' : World) (response : TokenResponse) : Type 0 where
    pub row : AuthorizationCode
    pub unused : has_unused_code tenant code row ≡ true
    pub was_stored : Any (λ r. r ≡ row) (e.others (suc w.calls) w.db).auth_codes
    pub in_time : (n : ℕ) × (is_expired (e.now n) row.expires_at ≡ false)
    pub checked : Redeemable row
    pub issue : Issues row response w'

  pub reused-ne-ok :
      (c : AuthorizationCode) (w : World) {response : TokenResponse} {w' : World}
      → on_consumed e tenant code client_id redirect verifier (ok (already_used c)) w
        ≡ (ok response, w')
      → ⊥
  unfolding on_consumed
  reused-ne-ok c w h =
      let (_, w₁, _, k) = bind-eq-ok _ _ w h in
      let (_, w₂, _, l) = bind-eq-ok _ _ w₁ k in throw-ne-ok _ w₂ l

  pub failed-ne-ok :
      (x : Error) (w : World) {response : TokenResponse} {w' : World}
      → on_consumed e tenant code client_id redirect verifier (err x) w ≡ (ok response, w')
      → ⊥
  unfolding on_consumed
  failed-ne-ok x w h = throw-ne-ok _ w h

  -- The branch of a freshly consumed code.
  pub live_code-eq-ok :
      (c : AuthorizationCode) (w : World) {response : TokenResponse} {w' : World}
      → on_consumed e tenant code client_id redirect verifier (ok (consumed c)) w
        ≡ (ok response, w')
      → ((n : ℕ) × (is_expired (e.now n) c.expires_at ≡ false))
        × ((w₁ : World) × (redeem e tenant code client_id redirect verifier c w₁
              ≡ (ok response, w')))
  unfolding on_consumed
  live_code-eq-ok c w h =
      let (now, w₁, read, k) = bind-eq-ok _ _ w h in
      elim (Bool-cases (is_expired now c.expires_at)) [
        | inl old ↦ absurd (drop_expired-ne-ok w₁ (rw old at k))
        | inr young ↦ (
          (w.calls, ap (λ t. is_expired t c.expires_at) (clock-eq-ok e w read).0 ∙ young),
          (w₁, rw young at k),
        )
      ]

  pub on_consumed-eq-ok :
      (w w₁ : World) (r : Result Consumed) {response : TokenResponse} {w' : World}
      → attempt (consume e tenant code) w ≡ (ok r, w₁)
      → on_consumed e tenant code client_id redirect verifier r w₁ ≡ (ok response, w')
      → Redeemed w w' response × Spent tenant code w₁.db
  on_consumed-eq-ok w w₁ (ok (consumed c)) {response} {w'} tried h =
      let (row, marked, unused, there, spent) =
        consume-eq-consumed e tenant code w (attempt-eq-ok _ w tried) in
      let (young, (w₂, redeemed)) = live_code-eq-ok c w₁ h in
      let (checks, issued) = redeem-eq-ok c w₂ redeemed in
      let at_row =
        subst
          (λ b.
            (Redeemable b)
            × ((n : ℕ) × (is_expired (e.now n) b.expires_at ≡ false))
            × Issues b response w')
          marked (checks, young, issued) in
      (
        record {
          row = row;
          unused = unused;
          was_stored = there;
          in_time = at_row.1;
          checked = record {
            its_client = at_row.0.its_client;
            its_redirect = at_row.0.its_redirect;
            verified = at_row.0.verified;
          };
          issue = at_row.2;
        },
        spent,
      )
  on_consumed-eq-ok w w₁ (ok (already_used c)) tried h = absurd (reused-ne-ok c w₁ h)
  on_consumed-eq-ok w w₁ (err x) tried h = absurd (failed-ne-ok x w₁ h)

  -- A successful exchange consumed a stored, unused, unexpired code of this tenant, issued to this
  -- client and for this redirect URI, with its PKCE challenge met if it has one, and its answer is
  -- that of `issueTokens` for the code's user, scope and family; whatever other requests do and
  -- whichever statements fail.
  pub exchange-Redeemed :
      (w : World) {response : TokenResponse} {w' : World}
      → exchange w ≡ (ok response, w')
      → Redeemed w w' response
  unfolding exchange_authorization_code
  exchange-Redeemed w h =
      let (r, w₁, tried, k) = bind-eq-ok _ _ w h in (on_consumed-eq-ok w w₁ r tried k).0
