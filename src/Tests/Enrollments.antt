-- ===== src/Tests/Enrollments.antt =====
-- The confirmation of a second factor on the example tables.
use shieldgate.Base.{
  ◌≡◌, refl, List, [], ◌∷◌, Text, codes, text_eq, trim_space, is_space, trim_left, select_rows,
  update_rows, delete_rows,
}
use shieldgate.Model.{ok, enabled}
use shieldgate.Effect.{
  Action, pure, throw, or_fail, wrap, outside, ◌>>=◌, clock, fresh_uuid, statement,
}
use shieldgate.Repo.Statements.{find, write}
use shieldgate.Repo.Session.{delete_sessions_of}
use shieldgate.Repo.Mfa.{get_mfa}
use shieldgate.Repo.MfaEnroll.{code_rows, insert_codes, replaced_codes, confirm_row, confirm_mfa}
use shieldgate.Users.SignOut.{NoSession}
use shieldgate.Mfa.Totp.{
  step_of, big_endian, decimal, truncated, totp_code, first_match, verify_totp, open_secret,
}
use shieldgate.Mfa.Enroll.{
  spell_code, letter_at, draw_codes, new_recovery_codes, end_user_sessions, confirm_enrollment,
}
use shieldgate.Mfa.Confirmed.{WasConfirmed, confirm_enrollment-WasConfirmed}
use shieldgate.Tests.Fixture.{server, world}

abbrev confirm : Action (List Text)
confirm = confirm_enrollment server 65 86 (codes "868609")

abbrev drawn : List Text
drawn =
    codes "5"
    ∷ codes "6"
    ∷ codes "7"
    ∷ codes "8"
    ∷ codes "9"
    ∷ codes "A"
    ∷ codes "B"
    ∷ codes "C"
    ∷ codes "D"
    ∷ codes "E"
    ∷ []

confirmed : confirm world ≡ (ok drawn, (confirm world).1)
unfolding confirm_enrollment get_mfa confirm_mfa confirm_row code_rows replaced_codes insert_codes
    end_user_sessions delete_sessions_of new_recovery_codes draw_codes spell_code letter_at
    open_secret verify_totp first_match totp_code big_endian truncated decimal step_of trim_space
    trim_left is_space text_eq enabled find write select_rows update_rows delete_rows pure throw
    or_fail wrap outside ◌>>=◌ clock fresh_uuid statement
confirmed = refl

confirmed_example :
    WasConfirmed server 65 86 (codes "868609") world × NoSession 65 86 (confirm world).1.db
confirmed_example = confirm_enrollment-WasConfirmed server 65 86 (codes "868609") world confirmed
