-- ===== src/Device/Delegation.antt =====
-- Token exchange: the scope of a delegation token.
use shieldgate.Base.{
  ℕ, ◌≡◌, ◌⊎◌, refl, sym, ap, ◌∙◌, subst, false, inl, inr, some, Text, text_eq, Any, Any-intro,
  is_cons, trim_space, join_space, Bool-cases, arith,
}
use shieldgate.Model.{
  Uuid, Result, ok, invalid_grant, type_access_token, Client, AccessToken, JwtClaims,
  TokenExchangeResponse,
}
use shieldgate.Scope.{parse_scope, scope_is_subset, validate_scope_for_client}
use shieldgate.Scope.Subset.{Within, Within-refl, scope_is_subset_iff}
use shieldgate.Scope.Words.{parse_scope-join, validate_scope_for_client_lem}
use shieldgate.Effect.{Env, Db, World, emit}
use shieldgate.Effect.Inversion.{
  bind-eq-ok, wrap-eq-ok, lift-eq-ok, pure-eq-ok, guard-eq-ok, outside-eq-ok,
}
use shieldgate.Repo.Saves.{create_access-stored}
use shieldgate.Auth.Introspect.{validate_access_token}
use shieldgate.Auth.TokenChecks.{Validated, validate-Validated}
use shieldgate.Device.TokenExchange.{exchanged_scope, issue_delegated, exchange_token}

exchanged_scope-Within :
    (granted requested : Text) {scope : Text}
    → exchanged_scope granted requested ≡ ok scope
    → Within (parse_scope scope) (parse_scope granted)
unfolding exchanged_scope
exchanged_scope-Within granted requested {scope} h =
    let In = λ (s : Text). Within (parse_scope s) (parse_scope granted) in
    elim (Bool-cases (is_cons requested)) [
      | inr blank ↦ subst In (ground arith) (Within-refl (parse_scope granted))
      | inl asked ↦ elim (Bool-cases (scope_is_subset requested granted)) [
        | inl fits ↦ subst In (ground arith) (
            subst (λ ws. Within ws (parse_scope granted)) (sym (parse_scope-join requested))
              ((scope_is_subset_iff requested granted).0 fits))
        | inr misses ↦ absurd (ground arith)
      ]
    ]

module _ (e : Env) (tenant : Uuid) (client : Client) where
  -- The row of a delegation token: the hash of the token, its tenant, client and scope.
  abbrev pub IsRecord : Text → Text → AccessToken → Type 0
  IsRecord token scope r =
      (r.token ≡ e.sha256_base64 token)
      × (r.tenant_id ≡ tenant)
      × (r.client_id ≡ client.id)
      × (r.scope ≡ scope)

  -- A delegation token with a scope: what is signed, what is answered, and what is stored.
  pub record IssuedFor (subject : JwtClaims) (scope : Text) (response : TokenExchangeResponse)
      (w' : World) : Type 0 where
    pub claims : JwtClaims
    pub signed : (k : ℕ) × (e.sign_access k claims ≡ some response.access_token)
    pub signed_scope : claims.scope ≡ scope
    pub signed_tenant : claims.tenant_id ≡ e.uuid_string tenant
    pub signed_subject : claims.sub ≡ subject.sub
    pub signed_client : claims.client_id ≡ client.client_id
    pub signed_actor : claims.act ≡ some client.client_id
    pub answered_scope : response.scope ≡ scope
    pub now_stored : Any (IsRecord response.access_token scope) w'.db.access_tokens

  issue_delegated-IssuedFor :
      (subject : JwtClaims) (scope : Text) (w : World) {response : TokenExchangeResponse}
      {w' : World}
      → issue_delegated e tenant client subject scope w ≡ (ok response, w')
      → IssuedFor subject scope response w'
  unfolding issue_delegated emit
  issue_delegated-IssuedFor subject scope w {response} {w'} h =
      let (now, w₁, _, h₁) = bind-eq-ok _ _ w h in
      let (jti, w₂, _, h₂) = bind-eq-ok _ _ w₁ h₁ in
      let (token, w₃, made, h₃) = bind-eq-ok _ _ w₂ h₂ in
      let (id, w₄, _, h₄) = bind-eq-ok _ _ w₃ h₃ in
      let (family, w₅, _, h₅) = bind-eq-ok _ _ w₄ h₄ in
      let (_, w₆, created, h₆) = bind-eq-ok _ _ w₅ h₅ in
      let (_, w₇, emitted, h₇) = bind-eq-ok _ _ w₆ h₆ in
      let (answered, w₇_eq) = pure-eq-ok _ w₇ h₇ in
      let (n, there) = create_access-stored e _ w₅ created in
      let kept : w₆.db ≡ w'.db =
        ap (λ (x : Result (Unit {0}) × World). x.1.db) emitted ∙ ap (λ (v : World). v.db) w₇_eq in
      subst (λ (r : TokenExchangeResponse). IssuedFor subject scope r w') answered
        (record {
          claims = _;
          signed = (w₂.calls, outside-eq-ok e _ w₂ made);
          signed_scope = refl;
          signed_tenant = refl;
          signed_subject = refl;
          signed_client = refl;
          signed_actor = refl;
          answered_scope = refl;
          now_stored =
              subst (λ (d : Db). Any (IsRecord token scope) d.access_tokens) kept
                (Any-intro (IsRecord token scope) w₆.db.access_tokens _ there
                  (refl, refl, refl, refl));
        })

  abbrev pub Registered : Text → Type 0
  Registered scope =
      (is_cons (trim_space scope) ≡ false)
      ⊎ Within (parse_scope scope) (parse_scope (join_space client.scopes))

  allowed-Registered :
      (scope : Text) {allowed : Text}
      → validate_scope_for_client client scope ≡ ok allowed
      → Registered scope
  allowed-Registered scope h = elim (validate_scope_for_client_lem client scope) [
    | inl (blank, _) ↦ inl blank
    | inr (inl (_, fits, _)) ↦ inr fits
    | inr (inr (_, _, refused)) ↦ absurd (cc (refused, h))
  ]

  -- A delegated token's subject was valid here, and bounds its scope, as the client's scopes do.
  pub record Delegated (subject_token : Text) (w : World) (response : TokenExchangeResponse)
      (w' : World) : Type 0 where
    pub subject : JwtClaims
    pub after : World
    pub read : validate_access_token e tenant subject_token w ≡ (ok subject, after)
    pub validated : Validated e tenant subject_token after subject
    pub scope : Text
    pub within_subject : Within (parse_scope scope) (parse_scope subject.scope)
    pub within_client : Registered scope
    pub issued : IssuedFor subject scope response w'

  -- A successful token exchange had a subject token that passed `ValidateAccessToken`, whose claims
  -- it returned. The new token is signed for this tenant, for the subject of those claims, and for
  -- this client, also as the actor; it is stored with its hash for this tenant and client; and it
  -- has, in its signed claims, in its stored row and in the answer, one scope, whose words are
  -- within those of the subject's, and within the client's registered scopes unless the scope is
  -- blank.
  pub exchange_token-Delegated :
      (subject_token type requested : Text) (w : World) {response : TokenExchangeResponse}
      {w' : World}
      → exchange_token e tenant client subject_token type requested w ≡ (ok response, w')
      → Delegated subject_token w response w'
  unfolding exchange_token
  exchange_token-Delegated subject_token type requested w h =
      let (_, w₁, typed, h₁) = bind-eq-ok _ _ w h in
      let (subject, w₂, accepted, h₂) = bind-eq-ok _ _ w₁ h₁ in
      let (scope, w₃, narrowed, h₃) = bind-eq-ok _ _ w₂ h₂ in
      let (allowed, w₄, registered, h₄) = bind-eq-ok _ _ w₃ h₃ in
      let at₁ : w ≡ w₁ = (guard-eq-ok (text_eq type type_access_token) invalid_grant w typed).1 in
      let read = wrap-eq-ok _ _ w₁ accepted in
      record {
        subject = subject;
        after = w₂;
        read = ap (validate_access_token e tenant subject_token) at₁ ∙ read;
        validated = validate-Validated e tenant subject_token w₁ read;
        scope = scope;
        within_subject =
            exchanged_scope-Within subject.scope requested
              (lift-eq-ok (exchanged_scope subject.scope requested) w₂ narrowed).0;
        within_client =
            allowed-Registered scope
              (lift-eq-ok (validate_scope_for_client client scope) w₃
                (wrap-eq-ok _ _ w₃ registered)).0;
        issued = issue_delegated-IssuedFor subject scope w₄ h₄;
      }
