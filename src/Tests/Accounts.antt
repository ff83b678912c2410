-- ===== src/Tests/Accounts.antt =====
-- Login, lockout and password reset on the example tables.
use shieldgate.Base.{◌≡◌, refl, inl, inr, codes, text_eq, select_rows, update_rows, delete_rows}
use shieldgate.Model.{ok, err, user_locked, User, is_user_locked, is_expired, full_name}
use shieldgate.Effect.{
  World, Action, pure, throw, or_fail, wrap, attempt, outside, ◌>>=◌, clock, statement,
}
use shieldgate.Repo.Statements.{find, write, change, save_row}
use shieldgate.Repo.Session.{delete_sessions_of}
use shieldgate.Repo.AccessToken
use shieldgate.Repo.RefreshToken
use shieldgate.Repo.Accounts.{get_user}
use shieldgate.Repo.User.{get_by_email, update_user}
use shieldgate.Repo.AccountLinks.{get_by_reset_hash, mark_reset_used, revoke_unused_resets}
use shieldgate.Users.Service.{
  authenticate, check_password, record_login_attempt, record_found, end_sessions, hash_password,
  notify_password_changed, send_template, display_name,
}
use shieldgate.Users.Links.{reset_password, reset_found, finish_reset, revoke_user_credentials}
use shieldgate.Users.Login.{LoggedIn, authenticate-LoggedIn}
use shieldgate.Users.Lockout.{tries, lockout}
use shieldgate.Users.SignOut.{SignedOut}
use shieldgate.Users.Reset.{WasReset, reset_password-WasReset}
use shieldgate.Tests.Fixture.{server, world, user}

abbrev login : Action User
login = authenticate server 65 (codes "a@b") (codes "pw")

entered : login world ≡ (ok user, (login world).1)
unfolding authenticate get_by_email find check_password record_login_attempt record_found
    update_user write save_row is_user_locked text_eq select_rows update_rows pure throw or_fail
    wrap attempt ◌>>=◌ clock statement
entered = refl

login_example : LoggedIn server 65 (codes "a@b") (codes "pw") world user
login_example = authenticate-LoggedIn server 65 (codes "a@b") (codes "pw") world entered

-- After five wrong passwords, and 10_000 calls.
abbrev locked_world : World
locked_world =
    record (tries server (λ n. refl) (λ n d. refl) 65 (codes "a@b") (codes "$pw") 5
      (λ n. codes "no") world) { calls = 10_000 }

lockout_example :
    (authenticate server 65 (codes "a@b") (codes "pw") locked_world).0 ≡ err user_locked
unfolding text_eq
lockout_example =
    lockout server (λ n. refl) (λ n d. refl) 65 (codes "a@b") (codes "$pw") user world locked_world
      (λ n. codes "no") (codes "pw")
      (record { stored = inl refl; only = (inr refl, tt); matches = refl })
      (record { unlocked = refl; no_end = refl }) refl (λ n. refl) refl

abbrev reset : Action User
reset = reset_password server 65 (codes "reset") (codes "new secret")

abbrev changed : User
changed = record user { password_hash = codes "$new secret"; updated_at = 3_000_000_000_006 }

was_reset : reset world ≡ (ok changed, (reset world).1)
unfolding reset_password reset_found finish_reset revoke_user_credentials get_by_reset_hash get_user
    mark_reset_used revoke_unused_resets end_sessions hash_password notify_password_changed
    send_template display_name full_name delete_sessions_of AccessToken.delete_by_user_id
    RefreshToken.delete_by_user_id find change update_user write save_row text_eq select_rows
    update_rows delete_rows pure throw or_fail wrap attempt outside ◌>>=◌ clock statement is_expired
was_reset = refl

reset_example :
    WasReset server 65 (codes "reset") (codes "new secret") world changed (reset world).1
    × SignedOut server 65 67 (reset world).1.db
reset_example =
    reset_password-WasReset server 65 (codes "reset") (codes "new secret") world
      (λ u. record {
        no_session = record { at = λ n d h. h };
        no_access = record { at = λ n d h. h };
        no_refresh = record { at = λ n d h. h };
      })
      (λ u hash. record { at = λ n d h. h }) was_reset
