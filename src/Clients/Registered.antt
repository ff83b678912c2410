-- ===== src/Clients/Registered.antt =====
-- What a dynamic registration has checked and stored.
use shieldgate.Base.{
  ◌≡◌, refl, sym, ap, ◌∙◌, subst, Bool, true, inl, List, [], ◌∷◌, map, Text, All, Any, Any-intro,
  select_rows, All-select_rows, join_space,
}
use shieldgate.Model.{
  Uuid, Time, ok, Client, InitialAccessToken, ClientMetadata, ClientRegistrationResponse,
  initial_access_token_not_found, invalid_token,
}
use shieldgate.Effect.{Env, Db, World}
use shieldgate.Effect.Inversion.{
  bind-eq-ok, wrap-eq-ok, guard-eq-ok, pure-eq-ok, throw-ne-ok, clock-eq-ok,
}
use shieldgate.Repo.Outcomes.{seen, find-eq-ok, change-eq-ok, write-eq-ok}
use shieldgate.Repo.Reads.{ticked}
use shieldgate.Repo.InitialAccess.{
  has_initial_hash, is_usable, count_use, put_initial_tokens, first_returned, get_initial_token,
  consume_initial_token,
}
use shieldgate.Repo.Client.{stored_client, create_client_row}
use shieldgate.Scope.{parse_scope, scope_is_subset}
use shieldgate.Scope.Subset.{Within, scope_is_subset_iff}
use shieldgate.Clients.Metadata.{RegisteredMetadata, is_public_method}
use shieldgate.Clients.Valid.{IsRegistrable, validate_client_metadata-Registrable}
use shieldgate.Clients.Registration.{scopes_or, admit, response, register_client, register}

-- A row whose use was returned was usable.
returned-usable :
    (p : InitialAccessToken → Bool) (rows found : List InitialAccessToken) (w : World)
    {t : InitialAccessToken} {w' : World}
    → All (λ r. (p r ≡ true) × Any (λ y. y ≡ r) rows) found
    → first_returned (map count_use found) w ≡ (ok t, w')
    → Any (λ r. p r ≡ true) rows
returned-usable p rows [] w all_found h = absurd (throw-ne-ok _ w h)
returned-usable p rows (r ∷ found) w ((usable, there), _) h = Any-intro _ rows r there usable

module _ (e : Env) (tenant : Uuid) where
  consume-usable :
      (hash : Text) (w : World) {t : InitialAccessToken} {w' : World}
      → consume_initial_token e tenant hash w ≡ (ok t, w')
      → Any
          (λ r. is_usable tenant hash (e.now w.calls) r ≡ true)
          (seen e (ticked w)).initial_access_tokens
  unfolding consume_initial_token
  consume-usable hash w h =
      let (now, w₁, timed, h₁) = bind-eq-ok _ _ w h in
      let (rows, w₂, changed, h₂) = bind-eq-ok _ _ w₁ h₁ in
      let p = is_usable tenant hash now in
      let before = (seen e w₁).initial_access_tokens in
      let (returned, _) =
        change-eq-ok e (λ d. d.initial_access_tokens) put_initial_tokens p count_use w₁ changed in
      let (now_eq, w₁_eq) = clock-eq-ok e w timed in
      let Usable : Time → World → Type 0 =
        λ n v. Any (λ r. is_usable tenant hash n r ≡ true) (seen e v).initial_access_tokens in
      subst (λ n. Usable n (ticked w)) (sym now_eq)
        (subst (Usable now) (sym w₁_eq) (
          returned-usable p before (select_rows p before) w₂ (All-select_rows p before)
            (ap (λ rs. first_returned rs w₂) returned ∙ h₂)))

  -- What the row of a new client says.
  pub record IsNewClient (md : RegisteredMetadata) (scopes : List Text)
      (answer : ClientRegistrationResponse) (c : Client) : Type 0 where
    pub of_tenant : c.tenant_id ≡ tenant
    pub dynamic : c.dynamically_registered ≡ true
    pub redirects : c.redirect_uris ≡ md.redirect_uris
    pub grants : c.grant_types ≡ md.grant_types
    pub allowed : c.scopes ≡ scopes
    pub kind : c.is_public ≡ is_public_method md.auth_method
    pub managed : c.registration_access_token ≡ e.sha256_base64 answer.registration_access_token
    pub named : answer.client_id ≡ c.client_id
    pub told : answer.metadata.scope ≡ join_space c.scopes

  create-stored :
      (c : Client) (w : World) {row : Client} {w' : World}
      → create_client_row e c w ≡ (ok row, w')
      → ((n : Time) × (stored_client n c ≡ row)) × Any (λ r. r ≡ row) w'.db.clients
  unfolding create_client_row
  create-stored c w {row} h =
      let (now, w₁, _, h₁) = bind-eq-ok _ _ w h in
      let (_, w₂, written, h₂) = bind-eq-ok _ _ w₁ h₁ in
      let (row_eq, w₂_eq) = pure-eq-ok _ w₂ h₂ in
      (
        (now, row_eq),
        subst (λ (v : World). Any (λ r. r ≡ row) v.db.clients) w₂_eq
            (subst (λ (d : Db). Any (λ r. r ≡ row) d.clients) (write-eq-ok e _ w₁ written)
              (rw (e.database.insert_lem (stored_client now c) (seen e w₁).clients) (inl row_eq))),
      )

  register_client-New :
      (md : RegisteredMetadata) (scopes : List Text) (w : World)
      {answer : ClientRegistrationResponse} {w' : World}
      → register_client e tenant md scopes w ≡ (ok answer, w')
      → Any (IsNewClient md scopes answer) w'.db.clients
  unfolding register_client response
  register_client-New md scopes w {answer} h =
      let (token, w₁, _, h₁) = bind-eq-ok _ _ w h in
      let ((secret, hash), w₂, _, h₂) = bind-eq-ok _ _ w₁ h₁ in
      let (id, w₃, _, h₃) = bind-eq-ok _ _ w₂ h₂ in
      let (client_id, w₄, _, h₄) = bind-eq-ok _ _ w₃ h₃ in
      let (now, w₅, _, h₅) = bind-eq-ok _ _ w₄ h₄ in
      let (row, w₆, created, h₆) = bind-eq-ok _ _ w₅ h₅ in
      let (answer_eq, w₆_eq) = pure-eq-ok _ w₆ h₆ in
      let ((n, row_eq), there) = create-stored _ w₅ (wrap-eq-ok _ _ w₅ created) in
      let new : IsNewClient md scopes answer row =
        subst (λ a. IsNewClient md scopes a row) answer_eq
          (record {
            of_tenant = ap (λ (c : Client). c.tenant_id) (sym row_eq);
            dynamic = ap (λ (c : Client). c.dynamically_registered) (sym row_eq);
            redirects = ap (λ (c : Client). c.redirect_uris) (sym row_eq);
            grants = ap (λ (c : Client). c.grant_types) (sym row_eq);
            allowed = ap (λ (c : Client). c.scopes) (sym row_eq);
            kind = ap (λ (c : Client). c.is_public) (sym row_eq);
            managed = ap (λ (c : Client). c.registration_access_token) (sym row_eq);
            named = refl;
            told = refl;
          }) in
      subst (λ (v : World). Any (IsNewClient md scopes answer) v.db.clients) w₆_eq
        (Any-intro _ w₆.db.clients row there new)

  -- The checks of `Register`, passed.
  admit-Registrable :
      (token : Text) (meta : ClientMetadata) (w : World) {md : RegisteredMetadata}
      {scopes : List Text} {w' : World}
      → admit e tenant token meta w ≡ (ok (md, scopes), w')
      → IsRegistrable e md
        × ((initial : InitialAccessToken) × (has_initial_hash tenant (e.sha256_base64 token) initial
              ≡ true)
            × Any (λ t. t ≡ initial) (seen e w).initial_access_tokens
            × Within (parse_scope (join_space scopes)) (parse_scope (join_space initial.scopes)))
  unfolding admit get_initial_token
  admit-Registrable token meta w {md} {scopes} h =
      let (_, w₁, given, h₁) = bind-eq-ok _ _ w h in
      let (initial, w₂, found, h₂) = bind-eq-ok _ _ w₁ h₁ in
      let (checked, w₃, valid, h₃) = bind-eq-ok _ _ w₂ h₂ in
      let (_, w₄, fits, h₄) = bind-eq-ok _ _ w₃ h₃ in
      let (of_token, stored, _) =
        find-eq-ok e (λ d. d.initial_access_tokens)
          (has_initial_hash tenant (e.sha256_base64 token)) initial_access_token_not_found w₁
          (wrap-eq-ok _ _ w₁ found) in
      let asked = scopes_or checked.scopes initial.scopes in
      let narrow =
        (guard-eq-ok (scope_is_subset (join_space asked) (join_space initial.scopes)) _ w₃
          fits).0 in
      let (same, _) = pure-eq-ok (checked, asked) w₄ h₄ in
      (
        subst (IsRegistrable e) (ap (λ p. p.0) same)
            (validate_client_metadata-Registrable e meta w₂ valid),
        (
          initial,
          of_token,
          subst (λ (v : World). Any (λ t. t ≡ initial) (seen e v).initial_access_tokens)
              (sym (guard-eq-ok _ invalid_token w given).1) stored,
          subst
              (λ ss. Within (parse_scope (join_space ss)) (parse_scope (join_space initial.scopes)))
              (ap (λ (p : RegisteredMetadata × List Text). p.1) same)
              ((scope_is_subset_iff _ _).0 narrow),
        ),
      )

  -- A registration that was taken: its token, the metadata and the stored client.
  pub record WasRegistered (token : Text) (meta : ClientMetadata) (w : World)
      (answer : ClientRegistrationResponse) (w' : World) : Type 0 where
    pub md : RegisteredMetadata
    pub valid : IsRegistrable e md
    pub initial : InitialAccessToken
    pub of_token : has_initial_hash tenant (e.sha256_base64 token) initial ≡ true
    pub was_stored : Any (λ t. t ≡ initial) (seen e w).initial_access_tokens
    pub scopes : List Text
    pub capped : Within (parse_scope (join_space scopes)) (parse_scope (join_space initial.scopes))
    pub claim : World
    pub admitted : admit e tenant token meta w ≡ (ok (md, scopes), claim)
    pub was_usable :
        Any
          (λ r. is_usable tenant (e.sha256_base64 token) (e.now claim.calls) r ≡ true)
          (seen e (ticked claim)).initial_access_tokens
    pub stored : Any (IsNewClient md scopes answer) w'.db.clients

  -- A successful dynamic registration presented an initial access token of this tenant that was
  -- stored when it was looked up, and a row under its hash was live and not used up, at the time
  -- read after the checks, when its use was counted. The metadata and scopes that the checks let
  -- through are such as a client may register for itself, the scopes' words within those of the
  -- initial access token; and a client of this tenant is stored with them, managed by the hash of
  -- the returned registration access token.
  pub register-WasRegistered :
      (token : Text) (meta : ClientMetadata) (w : World) {answer : ClientRegistrationResponse}
      {w' : World}
      → register e tenant token meta w ≡ (ok answer, w')
      → WasRegistered token meta w answer w'
  unfolding register
  register-WasRegistered token meta w h =
      let ((md, scopes), w₁, admitted, h₁) = bind-eq-ok _ _ w h in
      let (_, w₂, taken, h₂) = bind-eq-ok _ _ w₁ h₁ in
      let (valid, (initial, of_token, stored, capped)) = admit-Registrable token meta w admitted in
      let was_usable = consume-usable (e.sha256_base64 token) w₁ (wrap-eq-ok _ _ w₁ taken) in
      record {
        md = md;
        valid = valid;
        initial = initial;
        of_token = of_token;
        was_stored = stored;
        scopes = scopes;
        capped = capped;
        claim = w₁;
        admitted = admitted;
        was_usable = was_usable;
        stored = register_client-New md scopes w₂ h₂;
      }
