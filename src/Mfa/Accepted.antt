-- ===== src/Mfa/Accepted.antt =====
-- What an accepted second factor has passed.
use shieldgate.Base.{
  ℕ, suc, ◌+◌, ◌-◌, ◌≡◌, refl, sym, ap, ◌∙◌, subst, ◌≤◌, ◌==◌, leb, Bool, true, false, not, inl,
  inr, Any, not-eq-true, Option, none, some, List, [], ◌∷◌, Text, arith, All, Bool-cases, len,
  text_eq, text_eq→eq, trim_space, if◌then◌else◌,
}
use shieldgate.Model.{
  Uuid, Time, ok, internal, mfa_not_enabled, mfa_locked, invalid_mfa_code, UserMfa, enabled,
}
use shieldgate.Effect.{Env, World, throw}
use shieldgate.Effect.Inversion.{
  bind-eq-ok, guard-eq-ok, pure-eq-ok, or_fail-eq-ok, clock-eq-ok, throw-ne-ok,
}
use shieldgate.Repo.Outcomes.{seen, find-eq-ok}
use shieldgate.Repo.Reads.{ticked, after_read, find-world}
use shieldgate.Repo.Mfa.{is_settings, get_mfa}
use shieldgate.Repo.MfaUse.{StepUsed, CodeUsed, use_step-eq-true, use_recovery_code-eq-true}
use shieldgate.Mfa.Totp.{
  step_of, totp_code, first_match, verify_totp, looks_like_totp, open_secret, hash_recovery_code,
}
use shieldgate.Mfa.Service.{
  Method, totp, recovery_code, is_locked, secret_aad, claim_step, check_totp, check, reject, settle,
  verify,
}

-- The code of the step is the one typed, and the step is at most one away from the present one.
abbrev pub Matches : Env → Text → Text → Time → ℕ → Type 0
Matches e secret input now step =
    (totp_code e secret step ≡ trim_space input)
    × (step ≤ step_of now + 1)
    × (step_of now ≤ step + 1)

module _ (e : Env) where
  first_match-eq-some :
      (secret code : Text) (lo hi : ℕ) (steps : List ℕ) {step : ℕ}
      → All (λ s. (lo ≤ s + 1) × (s ≤ hi)) steps
      → first_match e secret code steps ≡ some step
      → (totp_code e secret step ≡ code) × (step ≤ hi) × (lo ≤ step + 1)
  unfolding first_match
  first_match-eq-some secret code lo hi [] near h = absurd (cc h)
  first_match-eq-some secret code lo hi (s ∷ steps) {step} near h =
      elim (Bool-cases (text_eq (totp_code e secret s) code)) [
        | inl same ↦
            subst (λ t. (totp_code e secret t ≡ code) × (t ≤ hi) × (lo ≤ t + 1))
              (some_eq (rw same at h)) (text_eq→eq _ _ same, near.0.1, near.0.0)
        | inr other ↦ first_match-eq-some secret code lo hi steps near.1 (rw other at h)
      ]
    where
      some_eq : {a b : ℕ} → some a ≡ some b → a ≡ b
      some_eq k = ground arith

  -- A step that the verification of a one-time password returns has the typed password as its code,
  -- and is at most one step before or after the present one.
  pub verify_totp-Matches :
      (secret input : Text) (now : Time) {step : ℕ}
      → verify_totp e secret input now ≡ some step
      → Matches e secret input now step
  unfolding verify_totp
  verify_totp-Matches secret input now h = elim (Bool-cases (len (trim_space input) == 6)) [
    | inl six ↦
        first_match-eq-some secret (trim_space input) (step_of now) (step_of now + 1)
          ((step_of now - 1) ∷ step_of now ∷ (step_of now + 1) ∷ [])
          (
            (omega arith, omega arith),
            ((omega arith, omega arith), ((omega arith, omega arith), tt)),
          )
          (rw six at h)
    | inr other ↦ absurd (cc (rw other at h))
  ]

  -- A one-time password of the user's own secret, whose step was unused when it was claimed.
  pub record ByTotp (m : UserMfa) (input : Text) (now : Time) (claim w' : World) : Type 0 where
    pub secret : Text
    pub opened : open_secret e m.totp_secret (secret_aad e m.tenant_id m.user_id) ≡ some secret
    pub step : ℕ
    pub matches : Matches e secret input now step
    pub was_unused : ¬ StepUsed m.tenant_id m.user_id step (e.others (suc claim.calls) claim.db)
    pub now_used : StepUsed m.tenant_id m.user_id step w'.db

  -- A recovery code of the user, unused when it was claimed.
  pub record ByCode (m : UserMfa) (input : Text) (claim w' : World) : Type 0 where
    pub was_unused :
        ¬ CodeUsed m.tenant_id m.user_id
          (hash_recovery_code e input)
          (e.others (suc (suc claim.calls)) claim.db)
    pub now_used : CodeUsed m.tenant_id m.user_id (hash_recovery_code e input) w'.db

  abbrev pub Accepts : UserMfa → Text → Time → Method → World → World → Type 0
  Accepts m input now totp claim w' = ByTotp m input now claim w'
  Accepts m input now recovery_code claim w' = ByCode m input claim w'

  claim_step-eq-true :
      (m : UserMfa) (o : Option ℕ) (w : World) {w' : World}
      → claim_step e m o w ≡ (ok true, w')
      → (step : ℕ) × (o ≡ some step)
        × (¬ StepUsed m.tenant_id m.user_id step (e.others (suc w.calls) w.db))
        × StepUsed m.tenant_id m.user_id step w'.db
  unfolding claim_step
  claim_step-eq-true m none w h = absurd (cc (pure-eq-ok false w h).0)
  claim_step-eq-true m (some step) w h =
      let (was_unused, now_used) = use_step-eq-true e m.tenant_id m.user_id step w h in
      (step, refl, was_unused, now_used)

  check_totp-eq-true :
      (m : UserMfa) (input : Text) (now : Time) (w : World) {w' : World}
      → check_totp e m input now w ≡ (ok true, w')
      → ByTotp m input now w w'
  unfolding check_totp
  check_totp-eq-true m input now w h =
      let (secret, w₁, opened, h₁) = bind-eq-ok _ _ w h in
      let (step, matched, was_unused, now_used) = claim_step-eq-true m _ w₁ h₁ in
      let (found, same) =
        or_fail-eq-ok (open_secret e m.totp_secret (secret_aad e m.tenant_id m.user_id)) internal w
          opened in
      record {
        secret = secret;
        opened = found;
        step = step;
        matches = verify_totp-Matches secret input now matched;
        was_unused =
            subst
              (λ (v : World). ¬ StepUsed m.tenant_id m.user_id step (e.others (suc v.calls) v.db))
              (sym same) was_unused;
        now_used = now_used;
      }

  check-Accepts :
      (m : UserMfa) (input : Text) (now : Time) (w : World) (answer : Method × Bool) {w' : World}
      → check e m input now w ≡ (ok answer, w')
      → answer.1 ≡ true
      → Accepts m input now answer.0 w w'
  unfolding check
  check-Accepts m input now w answer {w'} h accepted = elim (Bool-cases (looks_like_totp input)) [
    | inl typed ↦
        let (fresh, w₁, tried, h₁) = bind-eq-ok _ _ w (rw typed at h) in
        let (same, there) = pure-eq-ok (totp, fresh) w₁ h₁ in
        subst (λ (v : (Method × Bool) × World). Accepts m input now v.0.0 w v.1)
          (λ i. (same i, there i))
          (check_totp-eq-true m input now w
            (tried ∙ λ i. (ok ((ap (λ (a : Method × Bool). a.1) same ∙ accepted) i), w₁)))
    | inr other ↦
        let (used, w₁, tried, h₁) = bind-eq-ok _ _ w (rw other at h) in
        let (same, there) = pure-eq-ok (recovery_code, used) w₁ h₁ in
        let (was_unused, now_used) =
          use_recovery_code-eq-true e m.tenant_id m.user_id (hash_recovery_code e input) w
            (tried ∙ λ i. (ok ((ap (λ (a : Method × Bool). a.1) same ∙ accepted) i), w₁)) in
        subst (λ (v : (Method × Bool) × World). Accepts m input now v.0.0 w v.1)
          (λ i. (same i, there i)) (record { was_unused = was_unused; now_used = now_used })
  ]

  module _ (tenant user : Uuid) where
    -- A verified second factor: the user's settings as they were stored when they were read,
    -- enabled and not locked at the time read next, and what was accepted on the tables after that.
    pub record Verified (input : Text) (method : Method) (w w' : World) : Type 0 where
      pub settings : UserMfa
      pub of_user : is_settings tenant user settings ≡ true
      pub was_stored : Any (λ m. m ≡ settings) (seen e w).user_mfa
      pub is_enabled : enabled settings ≡ true
      pub not_locked : is_locked settings (e.now (suc w.calls)) ≡ false
      pub accepts : Accepts settings input (e.now (suc w.calls)) method (ticked (after_read e w)) w'

    settle-eq-ok :
        (m : UserMfa) (now : Time) (answer : Method × Bool) (w : World) {method : Method}
        {w' : World}
        → settle e tenant user m now answer w ≡ (ok method, w')
        → (answer.1 ≡ true) × (answer.0 ≡ method) × (w ≡ w')
    unfolding settle reject
    settle-eq-ok m now (tried, true) w h =
        let (same, there) = pure-eq-ok tried w h in (refl, same, there)
    settle-eq-ok m now (tried, false) w h =
        let (_, w₁, _, h₁) = bind-eq-ok _ _ w h in absurd (rejected w₁ h₁)
      where
        rejected :
            (v : World) {method : Method} {v' : World}
            → (if leb 5 (m.failed_attempts + 1) then throw mfa_locked else throw invalid_mfa_code) v
              ≡ (ok method, v')
            → ⊥
        rejected v k = elim (Bool-cases (leb 5 (m.failed_attempts + 1))) [
          | inl many ↦ throw-ne-ok _ v (rw many at k)
          | inr few ↦ throw-ne-ok _ v (rw few at k)
        ]

    -- A second factor that `Verify` accepts is one of a user of this tenant whose settings were
    -- stored when they were looked up, enabled, and not locked at the time read next; it is a one-
    -- time password of the user's opened secret, of a step at most one away from the present one
    -- that was unused when it was claimed and is used afterwards, or a recovery code that was
    -- unused when it was claimed and is used afterwards. This holds whatever other requests do and
    -- whichever statements fail.
    pub verify-Verified :
        (input : Text) (w : World) {method : Method} {w' : World}
        → verify e tenant user input w ≡ (ok method, w')
        → Verified input method w w'
    unfolding verify get_mfa
    verify-Verified input w {method} {w'} h =
        let (m, w₁, read, h₁) = bind-eq-ok _ _ w h in
        let (of_user, stored, _) =
          find-eq-ok e (λ d. d.user_mfa) (is_settings tenant user) mfa_not_enabled w read in
        let (_, w₂, on, h₂) = bind-eq-ok _ _ w₁ h₁ in
        let (now, w₃, timed, h₃) = bind-eq-ok _ _ w₂ h₂ in
        let (_, w₄, free, h₄) = bind-eq-ok _ _ w₃ h₃ in
        let (answer, w₅, checked, h₅) = bind-eq-ok _ _ w₄ h₄ in
        let (accepted, same, there) = settle-eq-ok m now answer w₅ h₅ in
        let passed = guard-eq-ok (enabled m) mfa_not_enabled w₁ on in
        let unlocked = guard-eq-ok (not (is_locked m now)) mfa_locked w₃ free in
        let at₂ : after_read e w ≡ w₂ =
          find-world e (λ d. d.user_mfa) (is_settings tenant user) mfa_not_enabled w read
          ∙ passed.1 in
        let at₄ : ticked (after_read e w) ≡ w₄ =
          ap ticked at₂ ∙ (clock-eq-ok e w₂ timed).1 ∙ unlocked.1 in
        let now_eq : e.now (suc w.calls) ≡ now =
          ap (λ (v : World). e.now v.calls) at₂ ∙ (clock-eq-ok e w₂ timed).0 in
        let accepts : Accepts m input now method w₄ w' =
          subst (λ (v : Method × World). Accepts m input now v.0 w₄ v.1) (λ i. (same i, there i))
            (check-Accepts m input now w₄ answer checked accepted) in
        record {
          settings = m;
          of_user = of_user;
          was_stored = stored;
          is_enabled = passed.0;
          not_locked = ap (is_locked m) now_eq ∙ not-eq-true (is_locked m now) unlocked.0;
          accepts =
              subst (λ (v : Time × World). Accepts m input v.0 method v.1 w')
                (λ i. (sym now_eq i, sym at₄ i)) accepts;
        }
