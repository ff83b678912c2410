-- ===== src/Mfa/Confirmed.antt =====
-- What the confirmation of an enrollment has checked, and what it leaves behind.
use shieldgate.Base.{
  ℕ, suc, Any, ◌-◌, ◌≡◌, sym, ap, ◌∙◌, subst, true, false, not, ltb, some, List, Text, not-eq-true,
}
use shieldgate.Model.{
  Uuid, ok, internal, mfa_not_enabled, mfa_not_enrolling, mfa_already_enabled, invalid_mfa_code,
  UserMfa, enabled,
}
use shieldgate.Effect.{Env, World}
use shieldgate.Effect.Inversion.{
  bind-eq-ok, wrap-eq-ok, guard-eq-ok, or_fail-eq-ok, clock-eq-ok, pure-eq-ok,
}
use shieldgate.Repo.Outcomes.{seen, find-eq-ok}
use shieldgate.Repo.Reads.{ticked, after_read, find-world}
use shieldgate.Repo.Mfa.{is_settings, get_mfa}
use shieldgate.Users.SignOut.{NoSession, delete-NoSession}
use shieldgate.Mfa.Totp.{open_secret}
use shieldgate.Mfa.Service.{secret_aad}
use shieldgate.Mfa.Accepted.{Matches, verify_totp-Matches}
use shieldgate.Mfa.Enroll.{mfa_enrollment_window, end_user_sessions, confirm_enrollment}

module _ (e : Env) (tenant user : Uuid) where
  -- An enrollment that was confirmed with a code: the settings that were stored when they were read,
  -- their age, and their secret, at the times that the request read next.
  pub record WasConfirmed (code : Text) (w : World) : Type 0 where
    pub settings : UserMfa
    pub of_user : is_settings tenant user settings ≡ true
    pub was_stored : Any (λ m. m ≡ settings) (seen e w).user_mfa
    pub was_pending : enabled settings ≡ false
    pub young : ltb mfa_enrollment_window (e.now (suc w.calls) - settings.updated_at) ≡ false
    pub secret : Text
    pub opened : open_secret e settings.totp_secret (secret_aad e tenant user) ≡ some secret
    pub step : ℕ
    pub proved : Matches e secret code (e.now (suc (suc w.calls))) step

  -- A confirmation of a second factor that succeeds was for settings of this tenant and user that
  -- were stored when they were looked up, not enabled, and at most fifteen minutes old at the time
  -- read next, with a code that is the one-time password of their opened secret for a step at most
  -- one away from the present one; and it leaves the user without a session.
  pub confirm_enrollment-WasConfirmed :
      (code : Text) (w : World) {drawn : List Text} {w' : World}
      → confirm_enrollment e tenant user code w ≡ (ok drawn, w')
      → WasConfirmed code w × NoSession tenant user w'.db
  unfolding confirm_enrollment get_mfa end_user_sessions
  confirm_enrollment-WasConfirmed code w h =
      let (m, w₁, found, h₁) = bind-eq-ok _ _ w h in
      let (_, w₂, pending, h₂) = bind-eq-ok _ _ w₁ h₁ in
      let (now, w₃, timed, h₃) = bind-eq-ok _ _ w₂ h₂ in
      let (_, w₄, young, h₄) = bind-eq-ok _ _ w₃ h₃ in
      let (secret, w₅, opened, h₅) = bind-eq-ok _ _ w₄ h₄ in
      let (later, w₆, timed_later, h₆) = bind-eq-ok _ _ w₅ h₅ in
      let (step, w₇, matched, h₇) = bind-eq-ok _ _ w₆ h₆ in
      let (_, w₈, _, h₈) = bind-eq-ok _ _ w₇ h₇ in
      let (_, w₉, _, h₉) = bind-eq-ok _ _ w₈ h₈ in
      let (_, v, ended, k) = bind-eq-ok _ _ w₉ h₉ in
      let (of_user, stored, _) =
        find-eq-ok e (λ d. d.user_mfa) (is_settings tenant user) mfa_not_enabled w
          (wrap-eq-ok _ _ w found) in
      let not_on = guard-eq-ok (not (enabled m)) mfa_already_enabled w₁ pending in
      let in_time =
        guard-eq-ok (not (ltb mfa_enrollment_window (now - m.updated_at))) mfa_not_enrolling w₃
          young in
      let shown =
        or_fail-eq-ok (open_secret e m.totp_secret (secret_aad e tenant user)) internal w₄ opened in
      let at₂ : after_read e w ≡ w₂ =
        find-world e (λ d. d.user_mfa) (is_settings tenant user) mfa_not_enabled w
          (wrap-eq-ok _ _ w found)
        ∙ not_on.1 in
      let at₅ : ticked (after_read e w) ≡ w₅ =
        ap ticked at₂ ∙ (clock-eq-ok e w₂ timed).1 ∙ in_time.1 ∙ shown.1 in
      (
        record {
          settings = m;
          of_user = of_user;
          was_stored = stored;
          was_pending = not-eq-true _ not_on.0;
          young =
              ap (λ (v : World). ltb mfa_enrollment_window (e.now v.calls - m.updated_at)) at₂
              ∙ ap (λ n. ltb mfa_enrollment_window (n - m.updated_at)) (clock-eq-ok e w₂ timed).0
              ∙ not-eq-true _ in_time.0;
          secret = secret;
          opened = shown.0;
          step = step;
          proved =
              subst (λ n. Matches e secret code n step)
                (sym (ap (λ (v : World). e.now v.calls) at₅ ∙ (clock-eq-ok e w₅ timed_later).0))
                (verify_totp-Matches e secret code later
                  (or_fail-eq-ok _ invalid_mfa_code w₆ matched).0);
        },
        subst (λ (x : World). NoSession tenant user x.db) (pure-eq-ok _ v k).1
            (delete-NoSession e tenant user w₉ (wrap-eq-ok _ _ w₉ ended)),
      )
