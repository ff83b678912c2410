-- ===== src/Auth/FamilyRevocation.antt =====
-- Revocation of a token family: replays of codes and refresh tokens, and RFC 7009 requests.
use shieldgate.Base.{
  ℕ, suc, ◌≡◌, ◌≢◌, refl, sym, ap, subst, true, false, ◌==◌, ◌⊎◌, inl, inr, Text, codes, arith, All,
  All-delete_rows, text_eq, Bool-cases,
}
use shieldgate.Model.{
  Uuid, Result, ok, err, is_revoked, invalid_grant, AuthorizationCode, RefreshToken,
}
use shieldgate.Effect.{Env, Db, World, attempt, wrap, statement, emit, ◌>>=◌}
use shieldgate.Effect.Keeps.{Rely}
use shieldgate.Repo.Statements.{write}
use shieldgate.Repo.RefreshToken
use shieldgate.Repo.AccessToken
use shieldgate.Repo.AuthCode.{already_used, consume}
use shieldgate.Auth.Issue.{revoke_token_family}
use shieldgate.Auth.Exchange.{on_consumed, exchange_authorization_code}
use shieldgate.Auth.Refresh.{refresh_token_reused, refresh_found, refresh_tokens}
use shieldgate.Auth.Revoke.{revoke_refresh, try_refresh, revoke_token}

-- No refresh token of the family is stored.
abbrev pub RefreshGone : Uuid → Uuid → Db → Type 0
RefreshGone tenant family d =
    All (λ t. RefreshToken.in_family tenant family t ≡ false) d.refresh_tokens

-- No token of the family is stored.
abbrev pub FamilyGone : Uuid → Uuid → Db → Type 0
FamilyGone tenant family d =
    RefreshGone tenant family d
    × All (λ t. AccessToken.in_family tenant family t ≡ false) d.access_tokens

module _ (e : Env) (sound : (n : ℕ) → e.fails n ≡ false) where
  write_runs :
      (f : Db → Db) (w : World)
      → write e f w ≡ (ok tt, record w { db = f (e.others w.calls w.db); calls = suc w.calls })
  unfolding write wrap statement
  write_runs f w = rw (sound w.calls)

  write_db : (f : Db → Db) (w : World) → (write e f w).1.db ≡ f (e.others w.calls w.db)
  write_db f w = ap (λ (r : Result (Unit {0}) × World). r.1.db) (write_runs f w)

  module _ (tenant family : Uuid) (rely : Rely e (RefreshGone tenant family)) where
    after_refresh : World → World
    after_refresh w = (attempt (RefreshToken.delete_by_family_id e tenant family) w).1

    after_refresh-gone : (w : World) → RefreshGone tenant family (after_refresh w).db
    unfolding after_refresh attempt RefreshToken.delete_by_family_id
    after_refresh-gone w =
        let p = RefreshToken.in_family tenant family in
        let rows = (e.others w.calls w.db).refresh_tokens in
        subst (RefreshGone tenant family)
          (sym
            (write_db (λ d. record d { refresh_tokens = e.database.delete p d.refresh_tokens }) w))
          (rw (e.database.delete_lem p rows) (All-delete_rows p rows))

    after_access-gone :
        (w : World)
        → RefreshGone tenant family w.db
        → FamilyGone tenant family
            (attempt (AccessToken.delete_by_family_id e tenant family) w).1.db
    unfolding attempt AccessToken.delete_by_family_id
    after_access-gone w gone =
        let p = AccessToken.in_family tenant family in
        let rows = (e.others w.calls w.db).access_tokens in
        subst (FamilyGone tenant family)
          (sym (write_db (λ d. record d { access_tokens = e.database.delete p d.access_tokens }) w))
          (rely.at w.calls w.db gone, rw (e.database.delete_lem p rows) (All-delete_rows p rows))

    -- Deleting a family leaves none of its refresh or access tokens, where no database statement
    -- fails and other requests store no refresh token of a family that has none.
    pub revoke_token_family-gone :
        (w : World) → FamilyGone tenant family (revoke_token_family e tenant family w).1.db
    unfolding revoke_token_family after_refresh ◌>>=◌
    revoke_token_family-gone w = after_access-gone (after_refresh w) (after_refresh-gone w)

  module _ (tenant : Uuid) where
    -- If the refresh token that is presented is found revoked, the refresh answers
    -- `ErrInvalidGrant` and no refresh or access token of its family stays stored, where no
    -- database statement fails and other requests store no refresh token of a family that has none.
    pub refresh_replay :
        (client_id requested token : Text) (t : RefreshToken) (w w₁ : World)
        → Rely e (RefreshGone tenant t.family_id)
        → RefreshToken.get_by_token e tenant (e.sha256_base64 token) w ≡ (ok t, w₁)
        → is_revoked t ≡ true
        → let (answer, w') = refresh_tokens e tenant client_id requested token w in
          (answer ≡ err invalid_grant) × FamilyGone tenant t.family_id w'.db
    unfolding refresh_tokens refresh_found refresh_token_reused revoke_token_family emit ◌>>=◌
    refresh_replay client_id requested token t w w₁ rely found used =
        rw (found, used) (refl, revoke_token_family-gone tenant t.family_id rely w₁)

    -- If `Consume` reports that the presented code was used before, the exchange answers
    -- `ErrInvalidGrant` and no refresh or access token of the code's family stays stored, where no
    -- database statement fails and other requests store no refresh token of a family that has none.
    pub exchange_replay :
        (code client_id redirect verifier : Text) (c : AuthorizationCode) (w w₁ : World)
        → Rely e (RefreshGone tenant c.id)
        → consume e tenant code w ≡ (ok (already_used c), w₁)
        → let (answer, w') =
            exchange_authorization_code e tenant code client_id redirect verifier w in
          (answer ≡ err invalid_grant) × FamilyGone tenant c.id w'.db
    unfolding exchange_authorization_code on_consumed revoke_token_family emit ◌>>=◌
    exchange_replay code client_id redirect verifier c w w₁ rely found =
        rw found (refl, revoke_token_family-gone tenant c.id rely w₁)

    -- A revocation request with the `refresh_token` hint, for a token that is found, always
    -- succeeds: it leaves no token of the token's family if the token's own client asks, and
    -- changes no table if another client asks, where no database statement fails and other requests
    -- store no refresh token of a family that has none.
    pub revoke_token_refresh :
        (requesting : Uuid) (token : Text) (t : RefreshToken) (w w₁ : World)
        → Rely e (RefreshGone tenant t.family_id)
        → RefreshToken.get_by_token e tenant (e.sha256_base64 token) w ≡ (ok t, w₁)
        → let (answer, w') = revoke_token e tenant requesting token (codes "refresh_token") w in
          (answer ≡ ok tt)
          × (((t.client_id ≡ requesting) × FamilyGone tenant t.family_id w'.db)
              ⊎ ((t.client_id ≢ requesting) × (w'.db ≡ w₁.db)))
    unfolding revoke_token try_refresh revoke_refresh revoke_token_family emit ◌>>=◌ text_eq
    revoke_token_refresh requesting token t w w₁ rely found =
        elim (Bool-cases (t.client_id == requesting)) [
          | inl own ↦
              rw (found, own)
                (refl, inl (ground arith, revoke_token_family-gone tenant t.family_id rely w₁))
          | inr foreign ↦ rw (found, foreign) (refl, inr (ground arith, refl))
        ]
