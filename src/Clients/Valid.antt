-- ===== src/Clients/Valid.antt =====
-- What client metadata that `validateClientMetadata` accepts looks like.
use shieldgate.Base.{
  ◌≡◌, refl, subst, Bool, true, false, not, ◌&&◌, ◌||◌, leb, ◌⊎◌, inl, inr, some, List, [], ◌∷◌,
  Text, codes, All, is_cons, length, text_eq, to_lower, both_true, not-eq-true,
}
use shieldgate.Model.{
  ok, ClientMetadata, grant_authorization_code, grant_refresh_token, grant_client_credentials,
  grant_device_code,
}
use shieldgate.Effect.{Env, Url, World}
use shieldgate.Effect.Inversion.{bind-eq-ok, guard-eq-ok, or_fail-eq-ok, pure-eq-ok, if-eq-ok}
use shieldgate.Scope.{contains, valid_scope_token}
use shieldgate.Scope.Subset.{Within, contains→Has}
use shieldgate.Clients.Metadata.{
  RegisteredMetadata, max_registered_uris, max_registered_scopes, dynamic_grant_types,
  is_public_method, has_rune, is_loopback, check_grants, check_scopes, check_scheme, check_uri,
  check_uris, validate_registered_uris, validate_client_metadata,
}

-- https with a host, http to the own machine, or a scheme of an app's own; no user information.
abbrev pub HasAllowedScheme : Env → Url → Type 0
HasAllowedScheme e u =
    (text_eq (to_lower u.scheme) (codes "https") ≡ true)
      × (is_cons u.host ≡ true)
      × (u.has_user ≡ false)
    ⊎ (text_eq (to_lower u.scheme) (codes "http") ≡ true)
      × (is_loopback e u.hostname ≡ true)
      × (u.has_user ≡ false)
    ⊎ (has_rune b'.' u.scheme ≡ true)

-- An absolute URI with such a scheme and no fragment.
abbrev pub IsAllowedUri : Env → Text → Type 0
IsAllowedUri e raw =
    (has_rune b'#' raw ≡ false)
    × ((u : Url) × (e.parse_url raw ≡ some u) × (is_cons u.scheme ≡ true) × HasAllowedScheme e u)

neither_true : (a b : Bool) → (a || b) ≡ false → (a ≡ false) × (b ≡ false)
neither_true true b h = cc h
neither_true false b h = (refl, h)

check_grants-Within :
    (grants : List Text) (w : World) {w' : World}
    → check_grants grants w ≡ (ok tt, w')
    → Within grants dynamic_grant_types
unfolding check_grants
check_grants-Within [] w h = tt
check_grants-Within (g ∷ rest) w h =
    let (_, w₁, known, h₁) = bind-eq-ok _ _ w h in
    (
      contains→Has dynamic_grant_types g (guard-eq-ok (contains dynamic_grant_types g) _ w known).0,
      check_grants-Within rest w₁ h₁,
    )

check_scopes-All :
    (scopes : List Text) (w : World) {w' : World}
    → check_scopes scopes w ≡ (ok tt, w')
    → All (λ s. valid_scope_token s ≡ true) scopes
unfolding check_scopes
check_scopes-All [] w h = tt
check_scopes-All (s ∷ rest) w h =
    let (_, w₁, valid, h₁) = bind-eq-ok _ _ w h in
    ((guard-eq-ok (valid_scope_token s) _ w valid).0, check_scopes-All rest w₁ h₁)

module _ (e : Env) where
  check_scheme-Allowed :
      (field : Text) (u : Url) (w : World) {w' : World}
      → check_scheme e field u w ≡ (ok tt, w')
      → HasAllowedScheme e u
  unfolding check_scheme
  check_scheme-Allowed field u w h =
      elim (if-eq-ok (text_eq (to_lower u.scheme) (codes "https")) _ _ w h) [
        | inl (secure, ran) ↦
            let (host, alone) =
              both_true _ _ (guard-eq-ok (is_cons u.host && not u.has_user) _ w ran).0 in
            inl (secure, host, not-eq-true _ alone)
        | inr (other, ran) ↦
            elim (if-eq-ok (text_eq (to_lower u.scheme) (codes "http")) _ _ w ran) [
              | inl (plain, checked) ↦
                  let (own, alone) =
                    both_true _ _
                      (guard-eq-ok (is_loopback e u.hostname && not u.has_user) _ w checked).0 in
                  inr (inl (plain, own, not-eq-true _ alone))
              | inr (private_use, checked) ↦
                  inr (inr (guard-eq-ok (has_rune b'.' u.scheme) _ w checked).0)
            ]
      ]

  check_uri-Allowed :
      (field raw : Text) (w : World) {w' : World}
      → check_uri e field raw w ≡ (ok tt, w')
      → IsAllowedUri e raw
  unfolding check_uri
  check_uri-Allowed field raw w h =
      let (_, w₁, short, h₁) = bind-eq-ok _ _ w h in
      let (u, w₂, parsed, h₂) = bind-eq-ok _ _ w₁ h₁ in
      let (_, w₃, is_abs, h₃) = bind-eq-ok _ _ w₂ h₂ in
      let (_, whole) =
        neither_true _ _ (not-eq-true _ (guard-eq-ok (not (_ || has_rune b'#' raw)) _ w short).0) in
      (
        whole,
        (
          u,
          (or_fail-eq-ok _ _ w₁ parsed).0,
          (guard-eq-ok (is_cons u.scheme) _ w₂ is_abs).0,
          check_scheme-Allowed field u w₃ h₃,
        ),
      )

  check_uris-All :
      (field : Text) (uris : List Text) (w : World) {w' : World}
      → check_uris e field uris w ≡ (ok tt, w')
      → All (IsAllowedUri e) uris
  unfolding check_uris
  check_uris-All field [] w h = tt
  check_uris-All field (raw ∷ rest) w h =
      let (_, w₁, checked, h₁) = bind-eq-ok _ _ w h in
      (check_uri-Allowed field raw w checked, check_uris-All field rest w₁ h₁)

  abbrev pub AreAllowed : List Text → Type 0
  AreAllowed uris = All (IsAllowedUri e) uris × (leb (length uris) max_registered_uris ≡ true)

  validate_registered_uris-Allowed :
      (field : Text) (given : List Text) (w : World) {uris : List Text} {w' : World}
      → validate_registered_uris e field given w ≡ (ok uris, w')
      → AreAllowed uris
  unfolding validate_registered_uris
  validate_registered_uris-Allowed field given w h =
      let (_, w₁, few, h₁) = bind-eq-ok _ _ w h in
      let (_, w₂, checked, h₂) = bind-eq-ok _ _ w₁ h₁ in
      subst AreAllowed (pure-eq-ok _ w₂ h₂).0 (
        check_uris-All field _ w₁ checked,
        (guard-eq-ok (leb (length _) max_registered_uris) _ w few).0,
      )

  -- Metadata that a client may register for itself.
  pub record IsRegistrable (md : RegisteredMetadata) : Type 0 where
    pub grants : Within md.grant_types dynamic_grant_types
    pub refreshed :
        (contains md.grant_types grant_refresh_token ≡ false)
        ⊎ (contains md.grant_types grant_authorization_code ≡ true)
        ⊎ (contains md.grant_types grant_device_code ≡ true)
    pub authenticated :
        (is_public_method md.auth_method ≡ false)
        ⊎ (contains md.grant_types grant_client_credentials ≡ false)
    pub redirected :
        (contains md.grant_types grant_authorization_code ≡ false)
        ⊎ (is_cons md.redirect_uris ≡ true)
    pub redirects : AreAllowed md.redirect_uris
    pub logouts : AreAllowed md.post_logout_redirect_uris
    pub words : All (λ s. valid_scope_token s ≡ true) md.scopes
    pub few_words : leb (length md.scopes) max_registered_scopes ≡ true

  not_both : (a b : Bool) → not (a && b) ≡ true → (a ≡ false) ⊎ (b ≡ false)
  not_both true b h = inr (not-eq-true b h)
  not_both false b h = inl refl

  not_three :
      (a b c : Bool) → not (a && not b && not c) ≡ true → (a ≡ false) ⊎ (b ≡ true) ⊎ (c ≡ true)
  not_three false b c h = inl refl
  not_three true true c h = inr (inl refl)
  not_three true false true h = inr (inr refl)
  not_three true false false h = cc h

  not_unless : (a b : Bool) → not (a && not b) ≡ true → (a ≡ false) ⊎ (b ≡ true)
  not_unless false b h = inl refl
  not_unless true true h = inr refl
  not_unless true false h = cc h

  -- Metadata that `validateClientMetadata` accepts asks only for grants that a client may register
  -- for itself, for refresh tokens only beside a grant that issues them, and as a public client not
  -- for client credentials; it has redirect URIs if it has the authorization code grant; it has at
  -- most ten URIs of each kind, each absolute, without a fragment, and of https with a host, of
  -- http to the own machine, or of a scheme with a dot; and it has at most fifty scopes, each a
  -- scope token.
  pub validate_client_metadata-Registrable :
      (meta : ClientMetadata) (w : World) {md : RegisteredMetadata} {w' : World}
      → validate_client_metadata e meta w ≡ (ok md, w')
      → IsRegistrable md
  unfolding validate_client_metadata
  validate_client_metadata-Registrable meta w h =
      let (_, w₁, granted, h₁) = bind-eq-ok _ _ w h in
      let (_, w₂, refreshed, h₂) = bind-eq-ok _ _ w₁ h₁ in
      let (_, w₃, _, h₃) = bind-eq-ok _ _ w₂ h₂ in
      let (method, w₄, _, h₄) = bind-eq-ok _ _ w₃ h₃ in
      let (_, w₅, authenticated, h₅) = bind-eq-ok _ _ w₄ h₄ in
      let (uris, w₆, redirects, h₆) = bind-eq-ok _ _ w₅ h₅ in
      let (_, w₇, redirected, h₇) = bind-eq-ok _ _ w₆ h₆ in
      let (logouts, w₈, left, h₈) = bind-eq-ok _ _ w₇ h₇ in
      let (_, w₉, _, h₉) = bind-eq-ok _ _ w₈ h₈ in
      let (_, v, few, k) = bind-eq-ok _ _ w₉ h₉ in
      let (_, v₁, valid, k₁) = bind-eq-ok _ _ v k in
      subst IsRegistrable (pure-eq-ok _ v₁ k₁).0 (record {
        grants = check_grants-Within _ w granted;
        refreshed = not_three _ _ _ (guard-eq-ok (not (_ && not _ && not _)) _ w₁ refreshed).0;
        authenticated =
            not_both _ _
              (guard-eq-ok (not (is_public_method method && contains _ grant_client_credentials)) _
                w₄ authenticated).0;
        redirected = not_unless _ _ (guard-eq-ok (not (_ && not _)) _ w₆ redirected).0;
        redirects = validate_registered_uris-Allowed _ _ w₅ redirects;
        logouts = validate_registered_uris-Allowed _ _ w₇ left;
        words = check_scopes-All _ v valid;
        few_words = (guard-eq-ok (leb (length _) max_registered_scopes) _ w₉ few).0;
      })
