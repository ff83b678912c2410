-- ===== src/Device/Flow.antt =====
-- The device authorization grant of internal/services/device_token_exchange.go (RFC 8628). The log
-- lines are left out.
use shieldgate.Base.{
  ℕ, ◌+◌, ◌*◌, ◌==◌, ltb, Bool, true, false, Option, none, some, List, [], Text, codes, ◌++◌,
  if◌then◌else◌,
}
use shieldgate.Model.{
  Uuid, Time, seconds, is_expired, invalid_grant, device_code_not_found, expired_device_code,
  slow_down, authorization_pending, device_access_denied, grant_device_code, Client, DeviceCode,
  DeviceCodeStatus, pending, approved, denied, other_status, DeviceAuthorizationResponse,
  TokenResponse,
}
use shieldgate.Effect.{
  Env, Action, clock, fresh_uuid, random_token, attempt, wrap, throw, pure, guard, ◌>>=◌, ◌>>◌,
}
use shieldgate.Repo.DeviceCode
use shieldgate.Auth.Claims.{AuthContext}
use shieldgate.Auth.Issue.{issue_tokens}
use shieldgate.Device.UserCode.{normalize_user_code, format_user_code, generate_user_code}

-- "now.Sub(*dc.LastPolledAt) < interval".
abbrev pub polled_within : Option Time → ℕ → Time → Bool
polled_within none interval now = false
polled_within (some last) interval now = ltb now (last + interval * 1_000_000_000)

abbrev pub is_pending : DeviceCodeStatus → Bool
is_pending pending = true
is_pending _ = false

-- The decisions of `ApproveDeviceCode` and `DenyDeviceCode`.
abbrev pub approve : Uuid → List Text → Time → DeviceCode → DeviceCode
approve user amr now dc = record dc {
  status = approved;
  user_id = some user;
  auth_time = some now;
  amr = amr;
}

abbrev pub deny : DeviceCode → DeviceCode
deny dc = record dc { status = denied }

module _ (e : Env) (tenant : Uuid) where
  -- `CreateDeviceAuthorization`.
  unfoldable pub create_device_authorization : Client → Text → Action DeviceAuthorizationResponse
  create_device_authorization client scope = do
    device_code ← random_token e 48
    user_code ← generate_user_code e
    let interval =
        if e.config.device_code_poll_interval == 0 then 5 else e.config.device_code_poll_interval
    let duration =
        if e.config.device_code_duration == 0
        then 600 * 1_000_000_000
        else e.config.device_code_duration
    id ← fresh_uuid e
    now ← clock e
    DeviceCode.create e (record {
      id = id;
      tenant_id = tenant;
      device_code = e.sha256_base64 device_code;
      user_code = user_code;
      client_id = client.id;
      user_id = none;
      scope = scope;
      status = pending;
      interval = interval;
      last_polled_at = none;
      auth_time = none;
      amr = [];
      expires_at = now + duration;
      created_at = 0;
    })
    pure (record {
      device_code = device_code;
      user_code = format_user_code user_code;
      verification_uri = e.config.server_url ++ codes "/oauth/device";
      verification_uri_complete =
          e.config.server_url
          ++ (codes "/oauth/device" ++ (codes "?user_code=" ++ format_user_code user_code));
      expires_in = seconds duration;
      interval = interval;
    })

  -- `resolveDeviceCode`; the decision may read the clock.
  unfoldable pub resolve_device_code : Text → (DeviceCode → Action DeviceCode) → Action (Unit {0})
  resolve_device_code user_code decide = do
    dc ←
        wrap (λ _. device_code_not_found)
          (DeviceCode.get_by_user_code e tenant (normalize_user_code user_code))
    now ← clock e
    if is_expired now dc.expires_at then throw expired_device_code else (do
      guard (is_pending dc.status) device_code_not_found
      decided ← decide dc
      DeviceCode.update e decided)

  unfoldable pub approve_device_code : Text → Uuid → List Text → Action (Unit {0})
  approve_device_code user_code user amr =
      resolve_device_code user_code (λ dc. clock e >>= (λ now. pure (approve user amr now dc)))

  unfoldable pub deny_device_code : Text → Action (Unit {0})
  deny_device_code user_code = resolve_device_code user_code (λ dc. pure (deny dc))

  abbrev pub device_context : DeviceCode → AuthContext
  device_context dc = record {
    grant_type = grant_device_code;
    auth_time = dc.auth_time;
    amr = dc.amr;
    nonce = [];
  }

  module _ (client : Client) where
    -- Deletes the code, and answers with an error whatever the deletion does.
    unfoldable pub drop_with : DeviceCode → Action TokenResponse → Action TokenResponse
    drop_with dc answer = attempt (DeviceCode.delete e tenant dc.device_code) >> answer

    -- An approved code: it is single-use, so it is removed before the tokens are issued.
    unfoldable pub redeem_approved : DeviceCode → Option Uuid → Action TokenResponse
    redeem_approved dc none = throw invalid_grant
    redeem_approved dc (some user) = do
      wrap (λ _. invalid_grant) (DeviceCode.delete e tenant dc.device_code)
      issue_tokens e tenant client user dc.scope dc.id true true (device_context dc)

    -- The `switch` on the status.
    unfoldable pub by_status : DeviceCode → DeviceCodeStatus → Action TokenResponse
    by_status dc pending = throw authorization_pending
    by_status dc denied = drop_with dc (throw device_access_denied)
    by_status dc approved = redeem_approved dc dc.user_id
    by_status dc (other_status _) = throw invalid_grant

    -- "Enforce the polling interval", with the poll recorded on the row.
    unfoldable pub poll : DeviceCode → Action TokenResponse
    poll dc = do
      now ← clock e
      recorded ← attempt (DeviceCode.update e (record dc { last_polled_at = some now }))
      if polled_within dc.last_polled_at dc.interval now
          then throw slow_down
          else by_status dc dc.status

    -- `ExchangeDeviceCode`.
    unfoldable pub exchange_device_code : Text → Action TokenResponse
    exchange_device_code device_code = do
      dc ←
          wrap (λ _. invalid_grant)
            (DeviceCode.get_by_device_code e tenant (e.sha256_base64 device_code))
      guard (dc.client_id == client.id) invalid_grant
      now ← clock e
      if is_expired now dc.expires_at then drop_with dc (throw expired_device_code) else poll dc
