-- ===== src/Repo/TokenUse.antt =====
-- The claim of a refresh token: what `Revoke` returns, and on which tables.
use shieldgate.Base.{
  suc, ◌≡◌, sym, ap, ◌∙◌, subst, Bool, false, ◌==◌, List, map, Text, arith, All, ◌⊎◌, length,
  select_rows, All-update_rows, select_rows_none, Bool-cases, inl, inr,
}
use shieldgate.Model.{Uuid, Time, ok, RefreshToken}
use shieldgate.Effect.{Env, Db, World}
use shieldgate.Effect.Inversion.{bind-eq-ok, clock-eq-ok, pure-eq-ok}
use shieldgate.Repo.Outcomes.{seen, change-eq-ok}
use shieldgate.Repo.RefreshToken
use shieldgate.Repo.RefreshToken.{has_token, has_live_token, put_refresh_tokens, mark_revoked}

-- No row of this token is live: it was rotated or revoked, or does not exist.
abbrev pub Retired : Uuid → Text → Db → Type 0
Retired tenant token d = All (λ t. has_live_token tenant token t ≡ false) d.refresh_tokens

module _ (e : Env) (tenant : Uuid) (token : Text) where
  claim_of :
      (now : Time) (d : Db)
      → ((length
              (map (mark_revoked now) (select_rows (has_live_token tenant token) d.refresh_tokens))
            == 1)
          ≡ false)
        ⊎ (¬ Retired tenant token d)
  claim_of now d =
      elim (Bool-cases (
        length (map (mark_revoked now) (select_rows (has_live_token tenant token) d.refresh_tokens))
        == 1)) [
          | inr free ↦ inl free
          | inl one ↦ inr (λ retired.
              let none_live =
                select_rows_none (has_live_token tenant token) d.refresh_tokens retired in
              cc (sym one ∙ ap (λ rows. length (map (mark_revoked now) rows) == 1) none_live))
        ]

  -- A claim leaves no live row of the token, and succeeds only where there was one.
  pub revoke-eq-ok :
      (w : World) {claimed : Bool} {w' : World}
      → RefreshToken.revoke e tenant token w ≡ (ok claimed, w')
      → Retired tenant token w'.db
        × ((claimed ≡ false) ⊎ (¬ Retired tenant token (e.others (suc w.calls) w.db)))
  unfolding RefreshToken.revoke
  revoke-eq-ok w {claimed} {w'} h =
      let (now, w₁, read, h₁) = bind-eq-ok _ _ w h in
      let (now_eq, w₁_eq) = clock-eq-ok e w read in
      let (rows, w₂, changed, h₂) = bind-eq-ok _ _ w₁ h₁ in
      let (claimed_eq, w₂_eq) = pure-eq-ok _ w₂ h₂ in
      let p = has_live_token tenant token in
      let (returned, stored) =
        change-eq-ok e (λ d. d.refresh_tokens) put_refresh_tokens p (mark_revoked now) w₁ changed in
      let d = seen e w₁ in
      let retired : Retired tenant token w₂.db =
        subst (Retired tenant token) stored
          (All-update_rows p (mark_revoked now) d.refresh_tokens (λ t. ground arith)) in
      (
        subst (λ (v : World). Retired tenant token v.db) w₂_eq retired,
        elim (claim_of now d) [
          | inl none_claimed ↦ inl (
              sym claimed_eq
              ∙ ap (λ (rs : List RefreshToken). length rs == 1) (sym returned)
              ∙ none_claimed)
          | inr live ↦
              inr (λ r. live (subst (λ (v : World). Retired tenant token (seen e v)) w₁_eq r))
        ],
      )
