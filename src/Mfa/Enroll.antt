-- ===== src/Mfa/Enroll.antt =====
-- internal/services/mfa_service_impl.go: the confirmation of an enrollment, new recovery codes, and the
-- end of the second factor; internal/mfa/recovery.go: the codes. `Sub` of times is not negative, as the
-- clock does not run backwards; the session repository is configured. The log lines are left out.
use shieldgate.Base.{
  ℕ, zero, suc, ◌-◌, ◌*◌, ◌%◌, ◌==◌, ltb, Bool, true, false, not, List, [], ◌∷◌, map, Text, codes,
  if◌then◌else◌,
}
use shieldgate.Model.{
  Uuid, Time, Error, wrapped, internal, mfa_not_enabled, mfa_not_enrolling, mfa_already_enabled,
  invalid_mfa_code, enabled,
}
use shieldgate.Effect.{Env, Action, clock, outside, wrap, or_fail, guard, pure, ◌>>=◌, ◌>>◌}
use shieldgate.Repo.Mfa.{get_mfa, delete_mfa}
use shieldgate.Repo.MfaEnroll.{confirm_mfa, replace_recovery_codes}
use shieldgate.Repo.Session.{delete_sessions_of}
use shieldgate.Mfa.Totp.{verify_totp, open_secret, hash_recovery_code}
use shieldgate.Mfa.Service.{secret_aad, is_enabled}

-- Fifteen minutes.
abbrev pub mfa_enrollment_window : Time
mfa_enrollment_window = 900 * 1_000_000_000

abbrev pub recovery_alphabet : Text
recovery_alphabet = codes "23456789ABCDEFGHJKMNPQRSTUVWXYZ"

-- `recoveryAlphabet[i]`, for an index in range.
unfoldable pub letter_at : List ℕ → ℕ → ℕ
letter_at [] i = 0
letter_at (c ∷ s) zero = c
letter_at (c ∷ s) (suc i) = letter_at s i

-- The loop over the bytes of one code; `j` counts them.
unfoldable pub spell_code : ℕ → List ℕ → Text
unfolding letter_at
spell_code j [] = []
spell_code j (b ∷ raw) =
    let c = letter_at recovery_alphabet (b % 31) in
    let rest = spell_code (suc j) raw in if j == 5 then b'-' ∷ (c ∷ rest) else c ∷ rest

-- `errors.Is(err, ErrMFANotEnabled)`.
unfoldable pub is_not_enabled : Error → Bool
is_not_enabled mfa_not_enabled = true
is_not_enabled (wrapped x) = is_not_enabled x
is_not_enabled _ = false

abbrev not_enrolling : Error → Error
not_enrolling x = if is_not_enabled x then mfa_not_enrolling else x

module _ (e : Env) where
  -- `NewRecoveryCodes`, for so many codes.
  unfoldable pub draw_codes : ℕ → Action (List Text)
  unfolding spell_code
  draw_codes zero = pure []
  draw_codes (suc n) = do
    raw ← outside e (λ k. e.random_bytes k 10)
    rest ← draw_codes n
    pure (spell_code 0 raw ∷ rest)

  -- `newRecoveryCodes`: the codes and their hashes.
  unfoldable pub new_recovery_codes : Action (List Text × List Text)
  new_recovery_codes =
      wrap wrapped (draw_codes 10) >>= (λ drawn. pure (drawn, map (hash_recovery_code e) drawn))

  module _ (tenant user : Uuid) where
    -- `endSessions`.
    unfoldable pub end_user_sessions : Action (Unit {0})
    end_user_sessions = wrap wrapped (delete_sessions_of e tenant user)

    -- `ConfirmTOTPEnrollment`: the recovery codes.
    unfoldable pub confirm_enrollment : Text → Action (List Text)
    unfolding is_not_enabled
    confirm_enrollment code = do
      m ← wrap not_enrolling (get_mfa e tenant user)
      guard (not (enabled m)) mfa_already_enabled
      now ← clock e
      guard (not (ltb mfa_enrollment_window (now - m.updated_at))) mfa_not_enrolling
      secret ← or_fail (open_secret e m.totp_secret (secret_aad e tenant user)) internal
      verified_at ← clock e
      step ← or_fail (verify_totp e secret code verified_at) invalid_mfa_code
      (drawn, hashes) ← new_recovery_codes
      confirm_mfa e tenant user step hashes
      end_user_sessions
      pure drawn

    -- `RegenerateRecoveryCodes`.
    unfoldable pub regenerate_recovery_codes : Action (List Text)
    regenerate_recovery_codes = do
      on ← is_enabled e tenant user
      guard on mfa_not_enabled
      (drawn, hashes) ← new_recovery_codes
      replace_recovery_codes e tenant user hashes
      pure drawn

    -- `Disable`.
    unfoldable pub disable_mfa : Action (Unit {0})
    disable_mfa = do m ← get_mfa e tenant user; delete_mfa e tenant user; end_user_sessions
