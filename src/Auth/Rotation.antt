-- ===== src/Auth/Rotation.antt =====
-- The refresh token grant: what a successful rotation has checked.
use shieldgate.Base.{
  suc, ◌≡◌, refl, sym, ap, ◌∙◌, subst, true, false, not, inl, inr, Text, Any, Any-intro, text_eq,
  text_eq→eq, Bool-cases, if◌then◌else◌,
}
use shieldgate.Model.{
  Uuid, Time, Result, ok, err, is_expired, is_revoked, invalid_grant, refresh_token_not_found,
  client_not_found, Client, RefreshToken, TokenResponse,
}
use shieldgate.Scope.{parse_scope}
use shieldgate.Scope.Subset.{Within}
use shieldgate.Effect.{Env, Db, World, clock}
use shieldgate.Effect.Inversion.{
  bind-eq-ok, wrap-eq-ok, attempt-eq-ok, guard-eq-ok, throw-ne-ok, clock-eq-ok, pure-eq-ok,
  lift-eq-ok,
}
use shieldgate.Repo.Outcomes.{seen, find-eq-ok}
use shieldgate.Repo.Reads.{ticked, after_read, find-world}
use shieldgate.Repo.Accounts.{is_client, get_client}
use shieldgate.Repo.RefreshToken
use shieldgate.Repo.RefreshToken.{has_token}
use shieldgate.Repo.TokenUse.{Retired, revoke-eq-ok}
use shieldgate.Auth.Issue.{issue_tokens}
use shieldgate.Auth.Refresh.{
  is_missing, token_context, narrowed_scope, refresh_token_reused, confirm_rotation, issue_rotated,
  rotate, drop_expired, refresh_live, refresh_found, refresh_tokens,
}
use shieldgate.Auth.Narrowing.{issue_tokens-scope, narrowed_scope-Within}

module _ (e : Env) (tenant : Uuid) where
  confirm-eq-ok :
      (t : RefreshToken) (response : TokenResponse) (r : Result RefreshToken) (w : World)
      {final : TokenResponse} {w' : World}
      → confirm_rotation e tenant t response r w ≡ (ok final, w')
      → (found : RefreshToken) × (r ≡ ok found) × (response ≡ final) × (w ≡ w')
  unfolding confirm_rotation
  confirm-eq-ok t response (ok found) w h =
      let (same, there) = pure-eq-ok _ w h in (found, refl, same, there)
  confirm-eq-ok t response (err x) w h = elim (Bool-cases (not (is_missing x))) [
    | inl other ↦ absurd (throw-ne-ok _ w (rw other at h))
    | inr missing ↦
        let (_, w₁, _, k) = bind-eq-ok _ _ w (rw missing at h) in absurd (throw-ne-ok _ w₁ k)
  ]

  -- Tokens that are handed out: those of `issueTokens`, and the claimed token's row was still stored
  -- when it was read again.
  issue_rotated-eq-ok :
      (t : RefreshToken) (client : Client) (scope : Text) (w : World) {response : TokenResponse}
      {w' : World}
      → issue_rotated e tenant t client scope w ≡ (ok response, w')
      → ((v : World) × (issue_tokens e tenant client t.user_id scope t.family_id true true
              (token_context e tenant t)
              w
            ≡ (ok response, v)))
        × Any (λ r. has_token tenant t.token r ≡ true) w'.db.refresh_tokens
  unfolding issue_rotated RefreshToken.get_by_token
  issue_rotated-eq-ok t client scope w {response} {w'} h =
      let (issued, w₁, made, h₁) = bind-eq-ok _ _ w h in
      let (r, w₂, read, h₂) = bind-eq-ok _ _ w₁ h₁ in
      let (found, r_eq, same, w₂_eq) = confirm-eq-ok t issued r w₂ h₂ in
      let (matches, there, kept) =
        find-eq-ok e (λ d. d.refresh_tokens) (has_token tenant t.token) _ w₁
          (attempt-eq-ok _ w₁ read ∙ ap (λ x. (x, w₂)) r_eq) in
      (
        (w₁, made ∙ ap (λ x. (ok x, w₁)) same),
        subst (λ (v : World). Any (λ x. has_token tenant t.token x ≡ true) v.db.refresh_tokens)
            w₂_eq
            (Any-intro (λ x. has_token tenant t.token x ≡ true) w₂.db.refresh_tokens found
              (subst (λ (d : Db). Any (λ x. x ≡ found) d.refresh_tokens) (sym kept) there) matches),
      )

  reused-ne-ok :
      (t : RefreshToken) (w : World) {response : TokenResponse} {w' : World}
      → refresh_token_reused e tenant t w ≡ (ok response, w')
      → ⊥
  unfolding refresh_token_reused
  reused-ne-ok t w h =
      let (_, w₁, _, h₁) = bind-eq-ok _ _ w h in
      let (_, w₂, _, h₂) = bind-eq-ok _ _ w₁ h₁ in throw-ne-ok _ w₂ h₂

  -- A token that was claimed at `w`, on tables where it was live, and the tokens issued for it.
  pub record Claimed (t : RefreshToken) (client : Client) (scope : Text) (w : World)
      (response : TokenResponse) (w' : World) : Type 0 where
    pub was_live : ¬ Retired tenant t.token (seen e (ticked w))
    pub before : World
    pub claimed : RefreshToken.revoke e tenant t.token w ≡ (ok true, before)
    pub after : World
    pub issue :
        issue_tokens e tenant client t.user_id scope t.family_id true true
          (token_context e tenant t)
          before
        ≡ (ok response, after)
    pub still_stored : Any (λ r. has_token tenant t.token r ≡ true) w'.db.refresh_tokens

  rotate-Claimed :
      (t : RefreshToken) (client : Client) (scope : Text) (w : World) {response : TokenResponse}
      {w' : World}
      → rotate e tenant t client scope w ≡ (ok response, w')
      → Claimed t client scope w response w'
  unfolding rotate
  rotate-Claimed t client scope w {response} {w'} h =
      let (claimed, w₁, claim, h₁) = bind-eq-ok _ _ w h in
      let revoked = wrap-eq-ok _ _ w claim in
      let (_, live) = revoke-eq-ok e tenant t.token w revoked in
      elim (Bool-cases claimed) [
        | inr lost ↦ absurd (reused-ne-ok t w₁ (rw lost at h₁))
        | inl won ↦
            let ((after, issue), there) = issue_rotated-eq-ok t client scope w₁ (rw won at h₁) in
            record {
              was_live = elim live [ inl no_claim ↦ absurd (cc (won, no_claim)) | inr l ↦ l ];
              before = w₁;
              claimed = revoked ∙ ap (λ b. (ok b, w₁)) won;
              after = after;
              issue = issue;
              still_stored = there;
            }
      ]

  drop_expired-ne-ok :
      (token : Text) (w : World) {response : TokenResponse} {w' : World}
      → drop_expired e tenant token w ≡ (ok response, w')
      → ⊥
  unfolding drop_expired
  drop_expired-ne-ok token w h = let (_, w₁, _, k) = bind-eq-ok _ _ w h in throw-ne-ok _ w₁ k

  module _ (client_id requested refresh_token : Text) where
    -- What the checks on an unrevoked, unexpired token from `w` on, the claim and the issue give.
    pub record Redeemed (t : RefreshToken) (w : World) (response : TokenResponse) (w' : World)
        : Type 0 where
      pub its_client : e.uuid_string t.client_id ≡ client_id
      pub client : Client
      pub client_row : is_client tenant t.client_id client ≡ true
      pub client_stored : Any (λ c. c ≡ client) (seen e w).clients
      pub scope : Text
      pub narrowed : Within (parse_scope scope) (parse_scope t.scope)
      pub named : response.scope ≡ scope
      pub claim : Claimed t client scope (after_read e w) response w'

    refresh_live-Redeemed :
        (t : RefreshToken) (w : World) {response : TokenResponse} {w' : World}
        → refresh_live e tenant client_id requested t w ≡ (ok response, w')
        → Redeemed t w response w'
    unfolding refresh_live get_client
    refresh_live-Redeemed t w {response} {w'} h =
        let (_, w₁, bound, h₁) = bind-eq-ok _ _ w h in
        let (scope, w₂, narrow, h₂) = bind-eq-ok _ _ w₁ h₁ in
        let (client, w₃, loaded, h₃) = bind-eq-ok _ _ w₂ h₂ in
        let is_bound =
          guard-eq-ok (text_eq (e.uuid_string t.client_id) client_id) invalid_grant w bound in
        let (narrow_eq, w₂_eq) = lift-eq-ok (narrowed_scope t.scope requested) w₁ narrow in
        let clients = λ (d : Db). d.clients in
        let found = wrap-eq-ok _ _ w₂ loaded in
        let (row, stored, _) =
          find-eq-ok e clients (is_client tenant t.client_id) client_not_found w₂ found in
        let at₂ : w ≡ w₂ = is_bound.1 ∙ w₂_eq in
        let at₃ : after_read e w ≡ w₃ =
          ap (after_read e) at₂
          ∙ find-world e clients (is_client tenant t.client_id) client_not_found w₂ found in
        let claim = rotate-Claimed t client scope w₃ h₃ in
        record {
          its_client = text_eq→eq _ _ is_bound.0;
          client = client;
          client_row = row;
          client_stored =
              subst (λ (v : World). Any (λ c. c ≡ client) (seen e v).clients) (sym at₂) stored;
          scope = scope;
          narrowed = narrowed_scope-Within t.scope requested narrow_eq;
          named =
              issue_tokens-scope e tenant client t.user_id scope t.family_id true true
                (token_context e tenant t) claim.before claim.issue;
          claim = subst (λ v. Claimed t client scope v response w') (sym at₃) claim;
        }

    timed-eq-ok :
        (t : RefreshToken) (w w₁ : World) (now : Time) {response : TokenResponse} {w' : World}
        → clock e w ≡ (ok now, w₁)
        → (if is_expired now t.expires_at
              then drop_expired e tenant refresh_token
              else refresh_live e tenant client_id requested t)
            w₁
          ≡ (ok response, w')
        → (is_expired (e.now w.calls) t.expires_at ≡ false) × Redeemed t (ticked w) response w'
    timed-eq-ok t w w₁ now {response} {w'} timed h =
        let (now_eq, w₁_eq) = clock-eq-ok e w timed in
        elim (Bool-cases (is_expired now t.expires_at)) [
          | inl old ↦ absurd (drop_expired-ne-ok refresh_token w₁ (rw old at h))
          | inr young ↦ (
            ap (λ n. is_expired n t.expires_at) now_eq ∙ young,
            subst (λ v. Redeemed t v response w') (sym w₁_eq)
                (refresh_live-Redeemed t w₁ (rw young at h)),
          )
        ]

    refresh_found-eq-ok :
        (t : RefreshToken) (w : World) {response : TokenResponse} {w' : World}
        → refresh_found e tenant client_id requested refresh_token t w ≡ (ok response, w')
        → (is_revoked t ≡ false)
          × (is_expired (e.now w.calls) t.expires_at ≡ false)
          × Redeemed t (ticked w) response w'
    unfolding refresh_found
    refresh_found-eq-ok t w h = elim (Bool-cases (is_revoked t)) [
      | inl gone ↦ absurd (reused-ne-ok t w (rw gone at h))
      | inr unrevoked ↦
          let (now, w₁, timed, h₁) = bind-eq-ok _ _ w (rw unrevoked at h) in
          let (in_time, redeemed) = timed-eq-ok t w w₁ now timed h₁ in
          (unrevoked, in_time, redeemed)
    ]

    -- A successful refresh at `w`: the token as its lookup met it, at the time read next, and then
    -- the client, the scope, the claim and the issue.
    pub record Rotated (w : World) (response : TokenResponse) (w' : World) : Type 0 where
      pub token : RefreshToken
      pub matches : has_token tenant (e.sha256_base64 refresh_token) token ≡ true
      pub was_stored : Any (λ r. r ≡ token) (seen e w).refresh_tokens
      pub unrevoked : is_revoked token ≡ false
      pub in_time : is_expired (e.now (suc w.calls)) token.expires_at ≡ false
      pub redeemed : Redeemed token (ticked (after_read e w)) response w'

    -- A successful refresh presented a refresh token of this tenant that was stored when it was
    -- looked up, unrevoked and unexpired at the time read next, and issued to this client; it was
    -- claimed, by the first update after the client was read, on tables where it was live; its
    -- client was stored in this tenant; the tokens are those of `issueTokens` for that client and
    -- the token's user and family, with a scope, named in the answer, whose words are within the
    -- token's; and the token's row was still stored when it was read again at the end. This holds
    -- whatever other requests do and whichever statements fail.
    pub refresh-Rotated :
        (w : World) {response : TokenResponse} {w' : World}
        → refresh_tokens e tenant client_id requested refresh_token w ≡ (ok response, w')
        → Rotated w response w'
    unfolding refresh_tokens RefreshToken.get_by_token
    refresh-Rotated w {response} {w'} h =
        let (t, w₁, read, h₁) = bind-eq-ok _ _ w h in
        let p = has_token tenant (e.sha256_base64 refresh_token) in
        let found = wrap-eq-ok _ _ w read in
        let (matches, stored, _) =
          find-eq-ok e (λ d. d.refresh_tokens) p refresh_token_not_found w found in
        let at₁ = find-world e (λ d. d.refresh_tokens) p refresh_token_not_found w found in
        let (unrevoked, in_time, redeemed) = refresh_found-eq-ok t w₁ h₁ in
        record {
          token = t;
          matches = matches;
          was_stored = stored;
          unrevoked = unrevoked;
          in_time = ap (λ (v : World). is_expired (e.now v.calls) t.expires_at) at₁ ∙ in_time;
          redeemed = subst (λ v. Redeemed t (ticked v) response w') (sym at₁) redeemed;
        }
