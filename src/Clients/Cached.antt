-- ===== src/Clients/Cached.antt =====
-- The secret cache and the answers of `ValidateClient`.
use shieldgate.Base.{
  suc, ◌≡◌, refl, sym, ap, subst, Bool, true, false, not, ◌||◌, ◌⊎◌, inl, inr, Option, none, List,
  [], Text, Any, is_cons-eq-false, is_cons, Bool-cases, if◌then◌else◌,
}
use shieldgate.Model.{Uuid, Result, ok, err, invalid_client, Client}
use shieldgate.Effect.{Env, Action, World, clock, lift, wrap, pure, throw, ◌>>=◌}
use shieldgate.Effect.Inversion.{bind-eq-ok, pure-eq-ok, throw-ne-ok, if-eq-ok, wrap-eq-ok}
use shieldgate.Repo.Client.{has_client_id, get_by_client_id}
use shieldgate.Repo.Outcomes.{seen, find-eq-ok}
use shieldgate.Clients.Cache.{Entry, verified}
use shieldgate.Clients.Service.{compare_secret, check_secret, validate_found, validate_client}
use shieldgate.Clients.Sound.{IsSound, remember-IsSound, sound-verified}

-- A public client shows no secret, and a confidential one shows the secret that its hash was made of.
abbrev pub Authenticated : Env → Client → Text → Type 0
Authenticated e c secret =
    (c.is_public ≡ true) × (secret ≡ [])
    ⊎ (c.is_public ≡ false) × (e.bcrypt_matches c.client_secret secret ≡ true)

-- The client of an answer, without the cache.
abbrev pub client_of : Result (Client × Option (List Entry)) → Result Client
client_of (ok (c, _)) = ok c
client_of (err x) = err x

-- The actions answer the same, and leave the same tables.
abbrev pub AnswersAs :
    Action (Client × Option (List Entry)) → Action (Client × Option (List Entry)) → World → Type 0
AnswersAs m n w = (client_of (m w).0 ≡ client_of (n w).0) × ((m w).1.db ≡ (n w).1.db)

AnswersAs-if :
    (b : Bool) (m m' n n' : Action (Client × Option (List Entry))) (w : World)
    → AnswersAs m m' w
    → AnswersAs n n' w
    → AnswersAs (if b then m else n) (if b then m' else n') w
AnswersAs-if true m m' n n' w h k = h
AnswersAs-if false m m' n n' w h k = k

module _ (e : Env) where
  -- The secret is the client's, and the cache is sound.
  abbrev IsRight : Client → Text → Client × Option (List Entry) → Type 0
  IsRight asked secret (c, cache) =
      (asked ≡ c) × (e.bcrypt_matches c.client_secret secret ≡ true) × IsSound e cache

  module _ (tenant : Uuid) (apart : (s t : Text) → e.secret_mac s ≡ e.secret_mac t → s ≡ t)
      (cache : Option (List Entry)) (sound : IsSound e cache) (secret : Text) where
    compare_secret-AnswersAs :
        (c : Client) (w : World)
        → AnswersAs
            (compare_secret e tenant cache c secret)
            (compare_secret e tenant none c secret)
            w
    unfolding compare_secret clock pure throw ◌>>=◌
    compare_secret-AnswersAs c w = elim (Bool-cases (e.bcrypt_matches c.client_secret secret)) [
      | inl right ↦ rw right (refl, refl)
      | inr wrong ↦ rw wrong (refl, refl)
    ]

    check_secret-AnswersAs :
        (c : Client) (w : World)
        → AnswersAs (check_secret e tenant cache c secret) (check_secret e tenant none c secret) w
    unfolding check_secret compare_secret verified clock pure throw ◌>>=◌
    check_secret-AnswersAs c w =
        elim (Bool-cases (not (is_cons secret) || not (is_cons c.client_secret))) [
          | inl missing ↦ rw missing (refl, refl)
          | inr given ↦
              elim (Bool-cases (verified e (e.now w.calls) cache c.id c.client_secret secret)) [
                | inr unknown ↦
                    rw given
                      (rw unknown (compare_secret-AnswersAs c (record w { calls = suc w.calls })))
                | inl hit ↦ rw given (
                    rw hit (
                      rw (sound-verified e apart _ cache c.id c.client_secret secret sound hit)
                        (refl, refl)))
              ]
        ]

    validate_found-AnswersAs :
        (c : Client) (w : World)
        → AnswersAs
            (validate_found e tenant cache secret c)
            (validate_found e tenant none secret c)
            w
    unfolding validate_found pure throw
    validate_found-AnswersAs c w =
        AnswersAs-if c.is_public _ _ _ _ w
          (AnswersAs-if (is_cons secret) _ _ _ _ w (refl, refl) (refl, refl))
          (check_secret-AnswersAs c w)

    continue-AnswersAs :
        (r : Result Client) (w : World)
        → AnswersAs
            (lift r >>= validate_found e tenant cache secret)
            (lift r >>= validate_found e tenant none secret)
            w
    unfolding ◌>>=◌
    continue-AnswersAs (ok c) w = validate_found-AnswersAs c w
    continue-AnswersAs (err x) w = (refl, refl)

    -- With a MAC that differs on different secrets, `ValidateClient` with a secret cache whose
    -- entries were made for secrets that bcrypt accepts gives the same answer, and leaves the same
    -- tables, as without a cache.
    pub validate_client-AnswersAs :
        (client_id : Text) (w : World)
        → AnswersAs
            (validate_client e tenant cache client_id secret)
            (validate_client e tenant none client_id secret)
            w
    unfolding validate_client ◌>>=◌
    validate_client-AnswersAs client_id w =
        let (r, w₁) = wrap (λ _. invalid_client) (get_by_client_id e tenant client_id) w in
        continue-AnswersAs r w₁

    check_secret-IsSound :
        (c : Client) (w : World) {c' : Client} {cache' : Option (List Entry)} {w' : World}
        → check_secret e tenant cache c secret w ≡ (ok (c', cache'), w')
        → IsRight c secret (c', cache')
    unfolding check_secret compare_secret clock pure throw ◌>>=◌
    check_secret-IsSound c w h =
        elim (Bool-cases (not (is_cons secret) || not (is_cons c.client_secret))) [
          | inl missing ↦ cc (rw missing at h)
          | inr given ↦
              elim (Bool-cases (verified e (e.now w.calls) cache c.id c.client_secret secret)) [
                | inl hit ↦
                    let (same, _) = pure-eq-ok (c, cache) _ (rw hit at (rw given at h)) in
                    subst (IsRight c secret) same (
                      refl,
                      sound-verified e apart _ cache c.id c.client_secret secret sound hit,
                      sound,
                    )
                | inr unknown ↦ elim (Bool-cases (e.bcrypt_matches c.client_secret secret)) [
                  | inr wrong ↦
                      absurd (throw-ne-ok _ _ (rw wrong at (rw unknown at (rw given at h))))
                  | inl right ↦
                      let (same, _) =
                        pure-eq-ok _ _ (rw right at (rw unknown at (rw given at h))) in
                      subst (IsRight c secret) same (
                        refl,
                        right,
                        remember-IsSound e _ cache c.id c.client_secret secret right sound,
                      )
                ]
              ]
        ]

    validate_found-eq-ok :
        (c : Client) (w : World) {c' : Client} {cache' : Option (List Entry)} {w' : World}
        → validate_found e tenant cache secret c w ≡ (ok (c', cache'), w')
        → (c ≡ c') × Authenticated e c secret × IsSound e cache'
    unfolding validate_found
    validate_found-eq-ok c w h = elim (if-eq-ok c.is_public _ _ w h) [
      | inl (is_open, ran) ↦ elim (if-eq-ok (is_cons secret) _ _ w ran) [
        | inl (given, failed) ↦ absurd (throw-ne-ok _ w failed)
        | inr (empty, returned) ↦
            let (same, _) = pure-eq-ok (c, cache) w returned in
            (
              ap (λ p. p.0) same,
              inl (is_open, is_cons-eq-false secret empty),
              subst (λ (p : Client × Option (List Entry)). IsSound e p.1) same sound,
            )
      ]
      | inr (confidential, ran) ↦
          let (same, right, sound') = check_secret-IsSound c w ran in
          (
            same,
            inr (
              confidential,
              subst (λ (a : Client). e.bcrypt_matches a.client_secret secret ≡ true) (sym same)
                  right,
            ),
            sound',
          )
    ]

    -- Under the same conditions, a client that `ValidateClient` returns is a row of this tenant
    -- with the given identifier; it is public and came without a secret, or it is confidential and
    -- bcrypt accepts the secret; and the cache afterwards has at most ten thousand entries, each
    -- made for a secret that bcrypt accepts.
    pub validate_client-Authenticated :
        (client_id : Text) (w : World) {c : Client} {cache' : Option (List Entry)} {w' : World}
        → validate_client e tenant cache client_id secret w ≡ (ok (c, cache'), w')
        → (has_client_id tenant client_id c ≡ true)
          × Any (λ r. r ≡ c) (seen e w).clients
          × Authenticated e c secret
          × IsSound e cache'
    unfolding validate_client get_by_client_id
    validate_client-Authenticated client_id w {cache' = cache'} h =
        let (found, w₁, looked_up, ran) = bind-eq-ok _ _ w h in
        let (has_id, stored, _) = find-eq-ok e _ _ _ w (wrap-eq-ok _ _ w looked_up) in
        let (same, proven, sound') = validate_found-eq-ok found w₁ ran in
        subst
          (λ (c : Client).
            (has_client_id tenant client_id c ≡ true)
            × Any (λ r. r ≡ c) (seen e w).clients
            × Authenticated e c secret
            × IsSound e cache')
          same (has_id, stored, proven, sound')
