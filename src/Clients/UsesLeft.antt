-- ===== src/Clients/UsesLeft.antt =====
-- How the uses that are left of an initial access token change.
use shieldgate.Base.{
  ℕ, ◌+◌, ◌-◌, ◌≤◌, ◌≡◌, refl, ap, ◌∙◌, subst, true, inl, inr, List, [], ◌∷◌, map, Text, arith,
  is_cons, select_rows, update_rows, Bool-cases, if◌then◌else◌,
}
use shieldgate.Model.{Uuid, Time, ok, InitialAccessToken}
use shieldgate.Effect.{Db, Env, World, clock}
use shieldgate.Effect.Keeps.{
  Keeps, Rely, kept, keeps_rules, Keeps-bind, Keeps-clock, Keeps-throw, Keeps-pure,
}
use shieldgate.Effect.Inversion.{bind-eq-ok, throw-ne-ok, pure-eq-ok}
use shieldgate.Repo.Keeps.{Keeps-write, Keeps-change}
use shieldgate.Repo.Outcomes.{seen, change-eq-ok}
use shieldgate.Repo.InitialAccess.{
  has_initial_hash, is_usable, count_use, put_initial_tokens, first_returned, consume_initial_token,
}
use shieldgate.Repo.Client.{create_client_row}
use shieldgate.Clients.Service.{
  new_secret, generate_client_secret, hash_client_secret, generate_client_id,
}
use shieldgate.Clients.Metadata.{RegisteredMetadata}
use shieldgate.Clients.Registration.{register_client}

-- What a row under a hash still allows.
abbrev pub left_of : Uuid → Text → InitialAccessToken → ℕ
left_of tenant hash t = if has_initial_hash tenant hash t then t.max_uses - t.uses else 0

-- What the rows under a hash still allow.
unfoldable pub uses_left : Uuid → Text → List InitialAccessToken → ℕ
uses_left tenant hash [] = 0
uses_left tenant hash (t ∷ rows) = left_of tenant hash t + uses_left tenant hash rows

abbrev pub HasAtMost : Uuid → Text → ℕ → Db → Type 0
HasAtMost tenant hash k d = uses_left tenant hash d.initial_access_tokens ≤ k

module _ (tenant : Uuid) (hash : Text) where
  abbrev used_rows : Time → List InitialAccessToken → List InitialAccessToken
  used_rows now rows = update_rows (is_usable tenant hash now) count_use rows

  left_of-count_use :
      (now : Time) (t : InitialAccessToken)
      → is_usable tenant hash now t ≡ true
      → left_of tenant hash (count_use t) + 1 ≤ left_of tenant hash t
  left_of-count_use now t h = ground arith

  uses_left-used_rows :
      (now : Time) (rows : List InitialAccessToken)
      → uses_left tenant hash (used_rows now rows) ≤ uses_left tenant hash rows
  unfolding uses_left update_rows
  uses_left-used_rows now [] = omega arith
  uses_left-used_rows now (t ∷ rows) = elim (Bool-cases (is_usable tenant hash now t)) [
    | inl usable ↦
        simp usable (omega (arith, left_of-count_use now t usable, uses_left-used_rows now rows))
    | inr other ↦ simp other (omega (arith, uses_left-used_rows now rows))
  ]

  uses_left-claimed :
      (now : Time) (rows : List InitialAccessToken)
      → is_cons (select_rows (is_usable tenant hash now) rows) ≡ true
      → uses_left tenant hash (used_rows now rows) + 1 ≤ uses_left tenant hash rows
  unfolding uses_left update_rows select_rows
  uses_left-claimed now [] h = absurd (cc h)
  uses_left-claimed now (t ∷ rows) h = elim (Bool-cases (is_usable tenant hash now t)) [
    | inl usable ↦
        simp usable (omega (arith, left_of-count_use now t usable, uses_left-used_rows now rows))
    | inr other ↦ simp other (omega (arith, uses_left-claimed now rows (simp other at h)))
  ]

  module _ (e : Env) (rely : (k : ℕ) → Rely e (HasAtMost tenant hash k)) where
    pub consume-Keeps :
        (k : ℕ) → Keeps (HasAtMost tenant hash k) (consume_initial_token e tenant hash)
    unfolding consume_initial_token
    consume-Keeps k = Keeps-bind _ _ (Keeps-clock e) (λ now.
        Keeps-bind _ _
          (Keeps-change e (rely k) (λ d. d.initial_access_tokens) put_initial_tokens
            (is_usable tenant hash now) count_use
            (λ d h.
              rw
                (e.database.update_lem (is_usable tenant hash now) count_use
                  d.initial_access_tokens)
                (omega (arith, uses_left-used_rows now d.initial_access_tokens))))
          returned-Keeps)
      where
        returned-Keeps :
            (rows : List InitialAccessToken) → Keeps (HasAtMost tenant hash k) (first_returned rows)
        returned-Keeps [] = Keeps-throw _
        returned-Keeps (t ∷ rows) = Keeps-pure t

    returned-is_cons :
        (rows : List InitialAccessToken) (w : World) {t : InitialAccessToken} {w' : World}
        → first_returned rows w ≡ (ok t, w')
        → (is_cons rows ≡ true) × (w ≡ w')
    returned-is_cons [] w h = absurd (throw-ne-ok _ w h)
    returned-is_cons (t ∷ rows) w h = (refl, (pure-eq-ok t w h).1)

    -- A use that is taken is one less that is left.
    pub consume-eq-ok :
        (k : ℕ) (w : World) {t : InitialAccessToken} {w' : World}
        → HasAtMost tenant hash k w.db
        → consume_initial_token e tenant hash w ≡ (ok t, w')
        → uses_left tenant hash w'.db.initial_access_tokens + 1 ≤ k
    unfolding consume_initial_token
    consume-eq-ok k w few h =
        let (now, w₁, timed, h₁) = bind-eq-ok _ _ w h in
        let (rows, w₂, changed, h₂) = bind-eq-ok _ _ w₁ h₁ in
        let (some_row, w₂_eq) = returned-is_cons rows w₂ h₂ in
        let (returned, stored) =
          change-eq-ok e (λ d. d.initial_access_tokens) put_initial_tokens
            (is_usable tenant hash now) count_use w₁ changed in
        let before = (seen e w₁).initial_access_tokens in
        let small =
          (rely k).at w₁.calls w₁.db
            (kept {P = HasAtMost tenant hash k} (clock e) w (Keeps-clock e) few timed) in
        let claimed =
          uses_left-claimed now before (is_cons-map before now (ap is_cons returned ∙ some_row)) in
        subst (λ (v : World). uses_left tenant hash v.db.initial_access_tokens + 1 ≤ k) w₂_eq
          (subst (λ d. uses_left tenant hash d.initial_access_tokens + 1 ≤ k) stored (omega arith))
      where
        is_cons-map :
            (before : List InitialAccessToken) (now : Time)
            → is_cons (map count_use (select_rows (is_usable tenant hash now) before)) ≡ true
            → is_cons (select_rows (is_usable tenant hash now) before) ≡ true
        is_cons-map before now h = from (select_rows (is_usable tenant hash now) before) h
          where
            from :
                (rows : List InitialAccessToken)
                → is_cons (map count_use rows) ≡ true
                → is_cons rows ≡ true
            from [] h = h
            from (t ∷ rows) h = refl

    pub register_client-Keeps :
        (k : ℕ) (md : RegisteredMetadata) (scopes : List Text)
        → Keeps (HasAtMost tenant hash k) (register_client e tenant md scopes)
    unfolding register_client new_secret generate_client_secret hash_client_secret
        generate_client_id create_client_row
    register_client-Keeps k md scopes = search (keeps_rules, Keeps-write e (rely k)) depth 30
