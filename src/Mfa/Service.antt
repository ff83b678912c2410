-- ===== src/Mfa/Service.antt =====
-- internal/services/mfa_service_impl.go: the check of a second factor. The log lines are left out.
use shieldgate.Base.{
  ℕ, ◌+◌, ◌*◌, ltb, leb, Bool, false, not, Option, none, some, ◌∷◌, ◌++◌, Text, if◌then◌else◌,
}
use shieldgate.Model.{
  Uuid, Time, internal, Result, ok, err, mfa_not_enabled, mfa_locked, invalid_mfa_code, UserMfa,
  enabled,
}
use shieldgate.Effect.{Env, Action, clock, attempt, throw, pure, or_fail, guard, ◌>>=◌, ◌>>◌}
use shieldgate.Repo.Mfa.{get_mfa, use_step, use_recovery_code, record_failure}
use shieldgate.Mfa.Totp.{looks_like_totp, verify_totp, open_secret, hash_recovery_code}

abbrev pub max_mfa_failures : ℕ
max_mfa_failures = 5

-- Fifteen minutes.
abbrev pub mfa_lockout_duration : ℕ
mfa_lockout_duration = 900 * 1_000_000_000

pub data Method : Type 0 where
  totp recovery_code : Method

abbrev until : Option Time → Time → Bool
until none now = false
until (some t) now = ltb now t

-- `settings.LockedUntil != nil && now.Before(*settings.LockedUntil)`.
abbrev pub is_locked : UserMfa → Time → Bool
is_locked m now = until m.locked_until now

module _ (e : Env) where
  -- `secretAAD`.
  abbrev pub secret_aad : Uuid → Uuid → Text
  secret_aad tenant user = e.uuid_string tenant ++ (b'|' ∷ e.uuid_string user)

  -- A matched step is used; without one nothing is tried.
  unfoldable pub claim_step : UserMfa → Option ℕ → Action Bool
  claim_step m none = pure false
  claim_step m (some step) = use_step e m.tenant_id m.user_id step

  -- The TOTP part of `check`.
  unfoldable pub check_totp : UserMfa → Text → Time → Action Bool
  check_totp m code now = do
    secret ← or_fail (open_secret e m.totp_secret (secret_aad m.tenant_id m.user_id)) internal
    claim_step m (verify_totp e secret code now)

  -- `check`.
  unfoldable pub check : UserMfa → Text → Time → Action (Method × Bool)
  check m code now =
      if looks_like_totp code
      then (check_totp m code now >>= (λ fresh. pure (totp, fresh)))
      else (use_recovery_code e m.tenant_id m.user_id (hash_recovery_code e code)
          >>= (λ used. pure (recovery_code, used)))

  module _ (tenant user : Uuid) where
    -- A wrong code counts towards the lock.
    unfoldable pub reject : UserMfa → Time → Action Method
    reject m now = do
      record_failure e tenant user max_mfa_failures (now + mfa_lockout_duration)
      if leb max_mfa_failures (m.failed_attempts + 1)
          then throw mfa_locked
          else throw invalid_mfa_code

    unfoldable pub settle : UserMfa → Time → Method × Bool → Action Method
    settle m now (method, accepted) = if accepted then pure method else reject m now

    -- `Verify`.
    unfoldable pub verify : Text → Action Method
    verify code = do
      m ← get_mfa e tenant user
      guard (enabled m) mfa_not_enabled
      now ← clock e
      guard (not (is_locked m now)) mfa_locked
      answer ← check m code now
      settle m now answer

    unfoldable pub enabled_or_missing : Result UserMfa → Action Bool
    enabled_or_missing (ok m) = pure (enabled m)
    enabled_or_missing (err mfa_not_enabled) = pure false
    enabled_or_missing (err x) = throw x

    -- `IsEnabled`.
    unfoldable pub is_enabled : Action Bool
    is_enabled = attempt (get_mfa e tenant user) >>= enabled_or_missing
