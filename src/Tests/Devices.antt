-- ===== src/Tests/Devices.antt =====
-- The device grant on the example tables.
use shieldgate.Base.{
  none, ℕ, zero, suc, ◌<◌, ◌≡◌, refl, some, arith, Text, codes, [], ◌∷◌, text_eq, fields,
  fields_from, select_rows, update_rows, delete_rows,
}
use shieldgate.Model.{pending, ok, err, invalid_grant, TokenResponse, is_expired}
use shieldgate.Scope.{parse_scope, contains, scope_contains}
use shieldgate.Effect.{
  Action, pure, throw, or_fail, lift, attempt, wrap, ◌>>=◌, clock, fresh_uuid, outside,
  random_token, statement, emit,
}
use shieldgate.Repo.Statements.{find, write}
use shieldgate.Repo.AccessToken
use shieldgate.Repo.RefreshToken
use shieldgate.Repo.DeviceCode
use shieldgate.Repo.DeviceCode.{save}
use shieldgate.Auth.Claims.{generate_jwt}
use shieldgate.Auth.Issue.{issue_tokens, store_access_token, store_refresh_token}
use shieldgate.Device.UserCode.{
  normalize_user_code, format_user_code, draw_chars, generate_user_code,
}
use shieldgate.Device.Display.{IsUserCode, normalize-format, generate_user_code-IsUserCode}
use shieldgate.Device.Flow.{redeem_approved, by_status, poll, exchange_device_code}
use shieldgate.Device.Polling.{StaysPending, poll-StaysPending}
use shieldgate.Device.Grant.{Granted, exchange-Granted, exchange_device_once}
use shieldgate.Tests.Fixture.{server, world, client, below, device_row}

abbrev exchange : Action TokenResponse
exchange = exchange_device_code server 65 client (codes "device")

abbrev device_tokens : TokenResponse
device_tokens = record {
  access_token = 7 ∷ codes "access";
  token_type = codes "Bearer";
  expires_in = 3600;
  refresh_token = 12 ∷ codes "token";
  id_token = [];
  scope = codes "email";
}

exchanged : exchange world ≡ (ok device_tokens, (exchange world).1)
unfolding exchange_device_code poll by_status redeem_approved DeviceCode.get_by_device_code
    DeviceCode.update save DeviceCode.delete issue_tokens store_access_token store_refresh_token
    generate_jwt find write text_eq select_rows update_rows delete_rows is_expired parse_scope
    contains scope_contains fields fields_from pure throw or_fail lift attempt wrap ◌>>=◌ clock
    fresh_uuid outside random_token statement emit AccessToken.create RefreshToken.create
exchanged = refl

accepted_example : Granted server 65 client (codes "device") world (exchange world).1 device_tokens
accepted_example = exchange-Granted server 65 client (codes "device") world exchanged

once_example : (exchange (exchange world).1).0 ≡ err invalid_grant
once_example =
    exchange_device_once server 65 client client (codes "device") world (record { at = λ n d h. h })
      exchanged

abbrev drawn_code : Text
drawn_code = codes "BBBBBBBB"

drawn : generate_user_code server world ≡ (ok drawn_code, (generate_user_code server world).1)
unfolding generate_user_code draw_chars outside or_fail pure ◌>>=◌
drawn = refl

below-lt : (n i : ℕ) → below n ≡ some i → i < n
below-lt zero i h = absurd (ground arith)
below-lt (suc n) i h = ground arith

generated_example :
    IsUserCode drawn_code × (normalize_user_code (format_user_code drawn_code) ≡ drawn_code)
generated_example = generate_user_code-IsUserCode server (λ k. below-lt) world drawn

typed_example : normalize_user_code (format_user_code (codes "BCDFGHJK")) ≡ codes "BCDFGHJK"
typed_example = normalize-format (codes "BCDFGHJK") (omega arith)

-- The row was approved after the poll had read it.
polled_example :
    StaysPending 73
      (poll server 65 client (record device_row { status = pending; user_id = none }) world).1.db
polled_example =
    poll-StaysPending server 65 client (record device_row { status = pending; user_id = none })
      world refl refl
