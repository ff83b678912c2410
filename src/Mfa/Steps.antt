-- ===== src/Mfa/Steps.antt =====
-- TOTP steps and recovery codes that are presented again.
use shieldgate.Base.{ℕ, suc, ◌≡◌, ◌≤◌, true, false, List, [], ◌∷◌, Text, arith, All}
use shieldgate.Model.{Uuid, ok, UserMfa}
use shieldgate.Effect.{Env, World}
use shieldgate.Effect.Keeps.{Rely}
use shieldgate.Repo.Mfa.{use_step, use_recovery_code, has_older_step}
use shieldgate.Repo.MfaUse.{StepUsed, CodeUsed, use_step-eq-true, use_recovery_code-eq-true}

older_used :
    (tenant user step step' : ℕ) (rows : List UserMfa)
    → step' ≤ step
    → All (λ m. has_older_step tenant user step m ≡ false) rows
    → All (λ m. has_older_step tenant user step' m ≡ false) rows
older_used tenant user step step' [] le h = tt
older_used tenant user step step' (m ∷ rows) le h =
    (ground (arith, h.0), older_used tenant user step step' rows le h.1)

module _ (e : Env) (tenant user : Uuid) where
  -- After a TOTP step of a user was accepted, neither that step nor an older one is accepted again,
  -- as long as other requests keep the steps up to it unusable.
  pub use_step_once :
      (step step' : ℕ) (w : World) {w' : World}
      → step' ≤ step
      → Rely e (StepUsed tenant user step)
      → use_step e tenant user step w ≡ (ok true, w')
      → ¬ ((use_step e tenant user step' w').0 ≡ ok true)
  use_step_once step step' w {w'} le rely h again =
      let used = rely.at (suc w'.calls) w'.db (use_step-eq-true e tenant user step w h).1 in
      let (was_unused, _) =
        use_step-eq-true e tenant user step' w' {w' = (use_step e tenant user step' w').1}
          (λ i. (again i, (use_step e tenant user step' w').1)) in
      was_unused (older_used tenant user step step' _ le used)

  -- After a recovery code of a user was accepted, it is not accepted again, as long as other
  -- requests store no unused code of the same hash for the user where there is none.
  pub use_recovery_code_once :
      (hash : Text) (w : World) {w' : World}
      → Rely e (CodeUsed tenant user hash)
      → use_recovery_code e tenant user hash w ≡ (ok true, w')
      → ¬ ((use_recovery_code e tenant user hash w').0 ≡ ok true)
  use_recovery_code_once hash w {w'} rely h again =
      let used =
        rely.at (suc (suc w'.calls)) w'.db (use_recovery_code-eq-true e tenant user hash w h).1 in
      let (was_unused, _) =
        use_recovery_code-eq-true e tenant user hash w'
          {w' = (use_recovery_code e tenant user hash w').1}
          (λ i. (again i, (use_recovery_code e tenant user hash w').1)) in
      was_unused used
