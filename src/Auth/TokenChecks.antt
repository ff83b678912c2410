-- ===== src/Auth/TokenChecks.antt =====
-- What an accepted access token has passed: introspection, validation and UserInfo.
use shieldgate.Base.{
  ℕ, ◌≡◌, refl, sym, ap, ◌∙◌, subst, true, false, ◌⊎◌, inl, inr, some, Text, Any, Any-intro,
  text_eq, text_eq→eq, Bool-cases,
}
use shieldgate.Model.{
  Uuid, Result, ok, err, is_expired, internal, invalid_token, tenant_mismatch, insufficient_scope,
  Client, AccessToken, access_token_not_found, user_not_found, User, UserInfo,
  IntrospectionResponse, JwtClaims,
}
use shieldgate.Scope.{scope_contains, scope_openid}
use shieldgate.Effect.{Env, Db, World, ParsedToken, attempt, clock, pure, ◌>>=◌}
use shieldgate.Effect.Inversion.{
  bind-eq-ok, wrap-eq-ok, guard-eq-ok, pure-eq-ok, outside-eq-ok, or_fail-eq-ok,
}
use shieldgate.Repo.Outcomes.{seen, find-eq-ok}
use shieldgate.Repo.AccessToken
use shieldgate.Repo.AccessToken.{has_token}
use shieldgate.Repo.Accounts.{get_user, is_user}
use shieldgate.Auth.Claims.{has_type, type_at_jwt, user_claims_for_scope}
use shieldgate.Auth.Introspect.{
  inactive, active_response, with_client, with_record, introspect_token, validate_access_token,
  get_user_info,
}

module _ (e : Env) (tenant : Uuid) (token : Text) where
  -- A stored, unexpired access token of the tenant, described by the response.
  pub record Described (w : World) (response : IntrospectionResponse) : Type 0 where
    pub row : AccessToken
    pub client : Client
    pub matches : has_token tenant (e.sha256_base64 token) row ≡ true
    pub was_stored : Any (λ r. r ≡ row) (seen e w).access_tokens
    pub in_time : (n : ℕ) × (is_expired (e.now n) row.expires_at ≡ false)
    pub describes : response ≡ active_response e tenant row client

  -- Either the answer is the bare inactive one, or it describes the row.
  Answers : AccessToken → Result IntrospectionResponse → Type 0
  Answers t r =
      (r ≡ ok inactive)
      ⊎ (((n : ℕ) × (is_expired (e.now n) t.expires_at ≡ false))
          × ((client : Client) × (r ≡ ok (active_response e tenant t client))))

  with_client-Answers :
      (t : AccessToken) (n : ℕ) (r : Result Client) (w : World)
      → is_expired (e.now n) t.expires_at ≡ false
      → Answers t (with_client e tenant t r w).0
  unfolding with_client pure Answers
  with_client-Answers t n (ok c) w young = inr ((n, young), (c, refl))
  with_client-Answers t n (err x) w young = inl refl

  with_record-Answers : (t : AccessToken) (w : World) → Answers t (with_record e tenant (ok t) w).0
  unfolding with_record ◌>>=◌ clock
  with_record-Answers t w = elim (Bool-cases (is_expired (e.now w.calls) t.expires_at)) [
    | inl old ↦ rw old (unfold Answers in inl refl)
    | inr young ↦ rw young (with_client-Answers t w.calls _ _ young)
  ]

  answer :
      (r : Result AccessToken) (w w₁ : World)
      → AccessToken.get_by_token e tenant (e.sha256_base64 token) w ≡ (r, w₁)
      → ((with_record e tenant r w₁).0 ≡ ok inactive)
        ⊎ ((response : IntrospectionResponse) × ((with_record e tenant r w₁).0 ≡ ok response)
            × Described w response)
  unfolding with_record AccessToken.get_by_token Answers pure
  answer (err x) w w₁ h = inl refl
  answer (ok t) w w₁ h =
      let (matches, there, _) =
        find-eq-ok e (λ d. d.access_tokens) (has_token tenant (e.sha256_base64 token))
          access_token_not_found w h in
      elim (with_record-Answers t w₁) [
        | inl none_given ↦ inl none_given
        | inr (young, given) ↦ inr (
          active_response e tenant t given.0,
          given.1,
          record {
            row = t;
            client = given.0;
            matches = matches;
            was_stored = there;
            in_time = young;
            describes = refl;
          },
        )
      ]

  -- Introspection never fails: it answers that the token is inactive and nothing else, or describes
  -- a stored, unexpired access token of the tenant.
  pub introspect_token_lem :
      (w : World)
      → ((introspect_token e tenant token w).0 ≡ ok inactive)
        ⊎ ((response : IntrospectionResponse) × ((introspect_token e tenant token w).0
              ≡ ok response)
            × Described w response)
  unfolding introspect_token ◌>>=◌ attempt
  introspect_token_lem w =
      let (r, w₁) = AccessToken.get_by_token e tenant (e.sha256_base64 token) w in
      answer r w w₁ refl

  -- What a validated token is: signed and typed as an access token, of this tenant, and stored.
  pub record Validated (w : World) (claims : JwtClaims) : Type 0 where
    pub parsed : ParsedToken
    pub verifies :
        (n : ℕ) × (e.parse_jwt n e.config.server_url e.config.server_url token ≡ some parsed)
    pub its_claims : parsed.claims ≡ claims
    pub valid : parsed.valid ≡ true
    pub typed : has_type parsed.typ type_at_jwt ≡ true
    pub its_tenant : claims.tenant_id ≡ e.uuid_string tenant
    pub stored : Any (λ r. has_token tenant (e.sha256_base64 token) r ≡ true) w.db.access_tokens

  -- A token that passes `ValidateAccessToken` was parsed with this server as issuer and audience,
  -- is valid and typed as an access token, names this tenant, and is a stored access token of this
  -- tenant.
  pub validate-Validated :
      (w : World) {claims : JwtClaims} {w' : World}
      → validate_access_token e tenant token w ≡ (ok claims, w')
      → Validated w' claims
  unfolding validate_access_token AccessToken.get_by_token
  validate-Validated w {claims} {w'} h =
      let (parsed, w₁, read, h₁) = bind-eq-ok _ _ w h in
      let (_, w₂, valid, h₂) = bind-eq-ok _ _ w₁ h₁ in
      let (_, w₃, typed, h₃) = bind-eq-ok _ _ w₂ h₂ in
      let (_, w₄, owned, h₄) = bind-eq-ok _ _ w₃ h₃ in
      let (row, w₅, found, h₅) = bind-eq-ok _ _ w₄ h₄ in
      let (same, there) = pure-eq-ok _ w₅ h₅ in
      let p = has_token tenant (e.sha256_base64 token) in
      let (matches, stored, kept) =
        find-eq-ok e (λ d. d.access_tokens) p access_token_not_found w₄ (wrap-eq-ok _ _ w₄ found) in
      record {
        parsed = parsed;
        verifies = (w.calls, outside-eq-ok e _ w read);
        its_claims = same;
        valid = (guard-eq-ok parsed.valid internal w₁ valid).0;
        typed = (guard-eq-ok (has_type parsed.typ type_at_jwt) invalid_token w₂ typed).0;
        its_tenant =
            ap (λ (c : JwtClaims). c.tenant_id) (sym same)
            ∙ text_eq→eq _ _
                (guard-eq-ok (text_eq parsed.claims.tenant_id (e.uuid_string tenant))
                  tenant_mismatch w₃ owned).0;
        stored =
            subst (λ (v : World). Any (λ r. p r ≡ true) v.db.access_tokens) there
              (Any-intro (λ r. p r ≡ true) w₅.db.access_tokens row
                (subst (λ (d : Db). Any (λ r. r ≡ row) d.access_tokens) (sym kept) stored) matches);
      }

  -- UserInfo that is released is for claims with the `openid` scope that `ValidateAccessToken`
  -- returned for the token, which is a validated one; and it is what the claims' scope releases of
  -- a user of this tenant, not deleted, whom the claims name and who was stored when the account
  -- was looked up after that validation.
  pub get_user_info_lem :
      (w : World) {info : UserInfo} {w' : World}
      → get_user_info e tenant token w ≡ (ok info, w')
      → (claims : JwtClaims) × (user : User) × (v : World) × (validate_access_token e tenant token w
          ≡ (ok claims, v))
        × Validated v claims
        × Any (λ r. r ≡ user) (seen e v).users
        × (scope_contains claims.scope scope_openid ≡ true)
        × ((id : Uuid) × (e.uuid_parse claims.user_id ≡ some id) × (is_user tenant id user ≡ true))
        × (info ≡ user_claims_for_scope e user claims.scope)
  unfolding get_user_info get_user
  get_user_info_lem w h =
      let (claims, w₁, validated, h₁) = bind-eq-ok _ _ w h in
      let (_, w₂, scoped, h₂) = bind-eq-ok _ _ w₁ h₁ in
      let (id, w₃, parsed, h₃) = bind-eq-ok _ _ w₂ h₂ in
      let (user, w₄, found, h₄) = bind-eq-ok _ _ w₃ h₃ in
      let in_scope =
        guard-eq-ok (scope_contains claims.scope scope_openid) insufficient_scope w₁ scoped in
      let named = or_fail-eq-ok (e.uuid_parse claims.user_id) invalid_token w₂ parsed in
      let (its_row, stored, _) =
        find-eq-ok e (λ d. d.users) (is_user tenant id) user_not_found w₃ found in
      (
        claims,
        user,
        w₁,
        validated,
        validate-Validated w validated,
        subst (λ (v : World). Any (λ r. r ≡ user) (seen e v).users) (sym (in_scope.1 ∙ named.1))
            stored,
        in_scope.0,
        (id, named.0, its_row),
        sym (pure-eq-ok _ w₄ h₄).0,
      )
