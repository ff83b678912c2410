-- ===== src/Auth/Issued.antt =====
-- What `issueTokens` signs, stores and answers.
use shieldgate.Base.{
  ℕ, ◌≡◌, refl, sym, ap, ◌∙◌, subst, Bool, true, ◌&&◌, none, some, List, [], Text, Any, Any-intro,
  if◌then◌else◌,
}
use shieldgate.Model.{Uuid, Result, ok, Client, AccessToken, RefreshToken, JwtClaims, TokenResponse}
use shieldgate.Scope.{scope_contains, scope_openid}
use shieldgate.Effect.{Env, Db, World, emit, pure}
use shieldgate.Effect.Keeps.{Keeps, Rely, kept, keeps_rules}
use shieldgate.Effect.Inversion.{bind-eq-ok, wrap-eq-ok, pure-eq-ok, outside-eq-ok}
use shieldgate.Repo.Keeps.{Keeps-find, Keeps-write}
use shieldgate.Repo.Saves.{create_access-stored, create_refresh-stored}
use shieldgate.Repo.RefreshToken
use shieldgate.Repo.Accounts.{get_user}
use shieldgate.Auth.Claims.{AuthContext, generate_jwt, generate_id_token}
use shieldgate.Auth.Issue.{store_access_token, store_refresh_token, issue_id_token, issue_tokens}

module _ (e : Env) (tenant : Uuid) (client : Client) (user : Uuid) (scope : Text)
    (family : Uuid) where
  -- The row of an issued access token.
  abbrev pub IsAccessRow : Text → AccessToken → Type 0
  IsAccessRow token r =
      (r.token ≡ e.sha256_base64 token)
      × (r.tenant_id ≡ tenant)
      × (r.client_id ≡ client.id)
      × (r.user_id ≡ user)
      × (r.family_id ≡ family)
      × (r.scope ≡ scope)

  -- The row of an issued refresh token, which is not revoked.
  abbrev pub IsRefreshRow : Text → RefreshToken → Type 0
  IsRefreshRow token r =
      (r.token ≡ e.sha256_base64 token)
      × (r.tenant_id ≡ tenant)
      × (r.client_id ≡ client.id)
      × (r.user_id ≡ user)
      × (r.family_id ≡ family)
      × (r.scope ≡ scope)
      × (r.revoked_at ≡ none)

  abbrev pub HasAccess : Text → Db → Type 0
  HasAccess token d = Any (IsAccessRow token) d.access_tokens

  abbrev pub HasRefresh : Text → Db → Type 0
  HasRefresh token d = Any (IsRefreshRow token) d.refresh_tokens

  -- The signed claims of an access token for this tenant, client and scope.
  pub record Signed (token : Text) : Type 0 where
    pub claims : JwtClaims
    pub signed : (k : ℕ) × (e.sign_access k claims ≡ some token)
    pub its_scope : claims.scope ≡ scope
    pub its_tenant : claims.tenant_id ≡ e.uuid_string tenant
    pub its_client : claims.client_id ≡ client.client_id
    pub no_actor : claims.act ≡ none

  generate_jwt-Signed :
      (duration : ℕ) (w : World) {token : Text} {w' : World}
      → generate_jwt e tenant client user scope duration w ≡ (ok token, w')
      → Signed token
  unfolding generate_jwt
  generate_jwt-Signed duration w h =
      let (now, w₁, _, h₁) = bind-eq-ok _ _ w h in
      let (jti, w₂, _, h₂) = bind-eq-ok _ _ w₁ h₁ in
      record {
        claims = _;
        signed = (w₂.calls, outside-eq-ok e _ w₂ h₂);
        its_scope = refl;
        its_tenant = refl;
        its_client = refl;
        no_actor = refl;
      }

  store_access-eq-ok :
      (w : World) {token : Text} {found : Uuid} {w' : World}
      → store_access_token e tenant client user scope (pure family) w ≡ (ok (token, found), w')
      → Signed token × HasAccess token w'.db
  unfolding store_access_token
  store_access-eq-ok w {token} {found} {w'} h =
      let (made, w₁, signed, h₁) = bind-eq-ok _ _ w h in
      let (id, w₂, _, h₂) = bind-eq-ok _ _ w₁ h₁ in
      let (its, w₃, given, h₃) = bind-eq-ok _ _ w₂ h₂ in
      let (now, w₄, _, h₄) = bind-eq-ok _ _ w₃ h₃ in
      let (_, w₅, created, h₅) = bind-eq-ok _ _ w₄ h₄ in
      let (same, w₅_eq) = pure-eq-ok _ w₅ h₅ in
      let (n, there) = create_access-stored e _ w₄ (wrap-eq-ok _ _ w₄ created) in
      let in_family : its ≡ family = sym (pure-eq-ok family w₂ given).0 in
      let has : HasAccess made w₅.db =
        Any-intro (IsAccessRow made) w₅.db.access_tokens _ there
          (refl, refl, refl, refl, in_family, refl) in
      (
        subst Signed (ap (λ (p : Text × Uuid). p.0) same)
            (generate_jwt-Signed _ w (wrap-eq-ok _ _ w signed)),
        subst (λ t. HasAccess t w'.db) (ap (λ (p : Text × Uuid). p.0) same)
            (subst (λ (v : World). HasAccess made v.db) w₅_eq has),
      )

  store_refresh-eq-ok :
      (auth : AuthContext) (w : World) {token : Text} {w' : World}
      → store_refresh_token e tenant client user scope family auth w ≡ (ok token, w')
      → HasRefresh token w'.db
  unfolding store_refresh_token
  store_refresh-eq-ok auth w {token} {w'} h =
      let (made, w₁, _, h₁) = bind-eq-ok _ _ w h in
      let (id, w₂, _, h₂) = bind-eq-ok _ _ w₁ h₁ in
      let (now, w₃, _, h₃) = bind-eq-ok _ _ w₂ h₂ in
      let (_, w₄, created, h₄) = bind-eq-ok _ _ w₃ h₃ in
      let (same, w₄_eq) = pure-eq-ok _ w₄ h₄ in
      let (n, there) = create_refresh-stored e _ w₃ (wrap-eq-ok _ _ w₃ created) in
      let has : HasRefresh made w₄.db =
        Any-intro (IsRefreshRow made) w₄.db.refresh_tokens _ there
          (refl, refl, refl, refl, refl, refl, refl) in
      subst (λ t. HasRefresh t w'.db) same (subst (λ (v : World). HasRefresh made v.db) w₄_eq has)

  module _ {P : Db → Type 0} (rely : Rely e P) where
    store_refresh-Keeps :
        ((d : Db) (rows : List RefreshToken) → P d → P (record d { refresh_tokens = rows }))
        → (auth : AuthContext)
        → Keeps P (store_refresh_token e tenant client user scope family auth)
    unfolding store_refresh_token RefreshToken.create
    store_refresh-Keeps other auth = search (keeps_rules, Keeps-write e rely, other) depth 12

    id_token-Keeps :
        (with_id : Bool) (auth : AuthContext) (access : Text)
        → Keeps P
            (if with_id then issue_id_token e tenant client user scope auth access else pure [])
    unfolding issue_id_token generate_id_token get_user
    id_token-Keeps with_id auth access = search (keeps_rules, Keeps-find e rely) depth 12

  -- The tokens of a successful issue.
  pub record Issued (response : TokenResponse) (d : Db) : Type 0 where
    pub signed : Signed response.access_token
    pub answered_scope : response.scope ≡ scope
    pub has_access : HasAccess response.access_token d
    pub has_refresh : HasRefresh response.refresh_token d

  -- A successful `issueTokens` that includes a refresh token signed claims with the given tenant,
  -- client and scope and no actor as the access token; the answer names the scope; and a row under
  -- the hash of the access token and an unrevoked row under that of the refresh token are stored,
  -- each with the given tenant, client, user, family and scope, as long as other requests leave
  -- such rows stored.
  pub issue_tokens-Issued :
      (with_id : Bool) (auth : AuthContext) (w : World) {response : TokenResponse} {w' : World}
      → ((token : Text) → Rely e (HasAccess token))
      → ((token : Text) → Rely e (HasRefresh token))
      → issue_tokens e tenant client user scope family true with_id auth w ≡ (ok response, w')
      → Issued response w'.db
  unfolding issue_tokens emit
  issue_tokens-Issued with_id auth w {response} {w'} keeps_access keeps_refresh h =
      let ((access, its), w₁, stored, h₁) = bind-eq-ok _ _ w h in
      let (refresh, w₂, made, h₂) = bind-eq-ok _ _ w₁ h₁ in
      let (id_token, w₃, told, h₃) = bind-eq-ok _ _ w₂ h₂ in
      let (_, w₄, emitted, h₄) = bind-eq-ok _ _ w₃ h₃ in
      let (answered, w₄_eq) = pure-eq-ok _ w₄ h₄ in
      let (signed, there) = store_access-eq-ok w stored in
      let with_openid = with_id && scope_contains scope scope_openid in
      let kept_db : w₃.db ≡ w'.db =
        ap (λ (x : Result (Unit {0}) × World). x.1.db) emitted ∙ ap (λ (v : World). v.db) w₄_eq in
      subst (λ (r : TokenResponse). Issued r w'.db) answered
        (record {
          signed = signed;
          answered_scope = refl;
          has_access = subst (HasAccess access) kept_db (
              kept _ w₂ (id_token-Keeps (keeps_access access) with_openid auth access)
                (kept _ w₁ (store_refresh-Keeps (keeps_access access) (λ d rows k. k) auth) there
                  made)
                told);
          has_refresh = subst (HasRefresh refresh) kept_db (
              kept _ w₂ (id_token-Keeps (keeps_refresh refresh) with_openid auth access)
                (store_refresh-eq-ok auth w₁ made) told);
        })
