-- ===== src/Tests/Factors.antt =====
-- The second factor on the example tables.
use shieldgate.Base.{
  arith, some, true, ◌≡◌, refl, Text, codes, text_eq, trim_space, is_space, trim_left, select_rows,
  update_rows,
}
use shieldgate.Model.{ok, enabled}
use shieldgate.Effect.{Action, pure, throw, or_fail, wrap, ◌>>=◌, clock, statement}
use shieldgate.Repo.Statements.{find, change}
use shieldgate.Repo.Mfa.{get_mfa, use_step, spend_code, use_recovery_code}
use shieldgate.Mfa.Totp.{
  step_of, big_endian, decimal, truncated, totp_code, first_match, verify_totp, all_digits,
  looks_like_totp, open_secret,
}
use shieldgate.Mfa.Service.{Method, totp, claim_step, check_totp, check, settle, verify}
use shieldgate.Mfa.Steps.{use_step_once, use_recovery_code_once}
use shieldgate.Mfa.Accepted.{Matches, Verified, verify_totp-Matches, verify-Verified}
use shieldgate.Tests.Fixture.{server, world}

matched : verify_totp server (codes "KEY") (codes " 868609") 3_000_000_000_000 ≡ some 100
unfolding verify_totp first_match totp_code big_endian truncated decimal step_of trim_space
    trim_left is_space text_eq
matched = refl

matched_example : Matches server (codes "KEY") (codes " 868609") 3_000_000_000_000 100
matched_example =
    verify_totp-Matches server (codes "KEY") (codes " 868609") 3_000_000_000_000 matched

abbrev try : Text → Action Method
try code = verify server 65 67 code

verified : try (codes "868609") world ≡ (ok totp, (try (codes "868609") world).1)
unfolding verify get_mfa check check_totp claim_step settle use_step change find looks_like_totp
    all_digits open_secret verify_totp first_match totp_code big_endian truncated decimal step_of
    trim_space trim_left is_space text_eq enabled select_rows update_rows pure throw or_fail wrap
    ◌>>=◌ clock statement
verified = refl

verified_example : Verified server 65 67 (codes "868609") totp world (try (codes "868609") world).1
verified_example = verify-Verified server 65 67 (codes "868609") world verified

stepped : use_step server 65 67 100 world ≡ (ok true, (use_step server 65 67 100 world).1)
unfolding use_step change select_rows update_rows pure wrap ◌>>=◌ clock statement
stepped = refl

step_example : ¬ ((use_step server 65 67 99 (use_step server 65 67 100 world).1).0 ≡ ok true)
step_example =
    use_step_once server 65 67 100 99 world (omega arith) (record { at = λ n d h. h }) stepped

recovered :
    use_recovery_code server 65 67 (codes "%ABCDEFGHJK") world
    ≡ (ok true, (use_recovery_code server 65 67 (codes "%ABCDEFGHJK") world).1)
unfolding use_recovery_code spend_code text_eq select_rows update_rows wrap ◌>>=◌ clock statement
recovered = refl

recovery_example : ¬ (
    (use_recovery_code server 65 67
      (codes "%ABCDEFGHJK")
      (use_recovery_code server 65 67 (codes "%ABCDEFGHJK") world).1).0
    ≡ ok true)
recovery_example =
    use_recovery_code_once server 65 67 (codes "%ABCDEFGHJK") world (record { at = λ n d h. h })
      recovered
