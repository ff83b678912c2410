-- ===== src/Sessions/Live.antt =====
-- The sessions that are returned.
use shieldgate.Base.{ℕ, ◌≡◌, ap, ◌∙◌, subst, true, false, inl, inr, Text, Any, is_cons, Bool-cases}
use shieldgate.Model.{Uuid, Session, ok, is_expired, session_not_found}
use shieldgate.Effect.{Env, World}
use shieldgate.Effect.Inversion.{bind-eq-ok, pure-eq-ok, throw-ne-ok, clock-eq-ok}
use shieldgate.Repo.Outcomes.{seen, find-eq-ok}
use shieldgate.Repo.Session.{has_hash, get_by_token_hash}
use shieldgate.Sessions.Service.{live_session, get_session}

module _ (e : Env) (tenant : Uuid) where
  -- A session of the tenant, stored for this token when it was looked up, and unexpired.
  pub record Live (token : Text) (w : World) (s : Session) : Type 0 where
    pub given : is_cons token ≡ true
    pub matches : has_hash tenant (e.sha256_base64 token) s ≡ true
    pub was_stored : Any (λ r. r ≡ s) (seen e w).sessions
    pub in_time : (n : ℕ) × (is_expired (e.now n) s.expires_at ≡ false)

  live-eq-ok :
      (s : Session) (w : World) {found : Session} {w' : World}
      → live_session e tenant s w ≡ (ok found, w')
      → (s ≡ found) × ((n : ℕ) × (is_expired (e.now n) s.expires_at ≡ false))
  unfolding live_session
  live-eq-ok s w h =
      let (now, w₁, timed, h₁) = bind-eq-ok _ _ w h in
      elim (Bool-cases (is_expired now s.expires_at)) [
        | inl old ↦
            let (_, w₂, _, h₂) = bind-eq-ok _ _ w₁ (rw old at h₁) in absurd (throw-ne-ok _ w₂ h₂)
        | inr young ↦ (
          (pure-eq-ok s w₁ (rw young at h₁)).0,
          (w.calls, ap (λ n. is_expired n s.expires_at) (clock-eq-ok e w timed).0 ∙ young),
        )
      ]

  -- A session that `GetSession` returns is of this tenant, was stored under the hash of the given,
  -- non-empty token when it was looked up, and has not expired.
  pub get_session-Live :
      (token : Text) (w : World) {s : Session} {w' : World}
      → get_session e tenant token w ≡ (ok s, w')
      → Live token w s
  unfolding get_session get_by_token_hash
  get_session-Live token w {s} h = elim (Bool-cases (is_cons token)) [
    | inr empty ↦ absurd (throw-ne-ok _ w (rw empty at h))
    | inl given ↦
        let (r, w₁, found, h₁) = bind-eq-ok _ _ w (rw given at h) in
        let (matches, there, _) =
          find-eq-ok e (λ d. d.sessions) (has_hash tenant (e.sha256_base64 token)) session_not_found
            w found in
        let (same, young) = live-eq-ok r w₁ h₁ in
        subst (λ x. Live token w x) same
          (record { given = given; matches = matches; was_stored = there; in_time = young })
  ]
