-- ===== src/Auth/Exchange.antt =====
-- `ExchangeAuthorizationCode` of internal/services/auth_service_impl.go.
use shieldgate.Base.{true, [], Text, if◌then◌else◌, is_cons, text_eq}
use shieldgate.Model.{
  Uuid, is_expired, Result, ok, err, invalid_grant, pkce_verification_failed,
  grant_authorization_code, AuthorizationCode, TokenResponse, TokenEvent, reuse_detected,
}
use shieldgate.Effect.{Env, Action, clock, emit, wrap, attempt, throw, pure, guard, ◌>>=◌, ◌>>◌}
use shieldgate.Repo.AuthCode
use shieldgate.Repo.AuthCode.{Consumed, consumed, already_used}
use shieldgate.Repo.Accounts.{get_client}
use shieldgate.Auth.Claims.{AuthContext, user_ref, validate_pkce}
use shieldgate.Auth.Issue.{issue_tokens, revoke_token_family}

module _ (e : Env) (tenant : Uuid) where
  abbrev pub code_reused : AuthorizationCode → TokenEvent
  code_reused c = record {
    type = reuse_detected;
    tenant_id = tenant;
    client_id = c.client_id;
    user_id = user_ref c.user_id;
    grant_type = [];
    scope = [];
    family_id = c.id;
    credential = grant_authorization_code;
    actor = [];
  }

  abbrev pub code_context : AuthorizationCode → AuthContext
  code_context c = record {
    grant_type = grant_authorization_code;
    auth_time = c.auth_time;
    amr = c.amr;
    nonce = c.nonce;
  }

  -- "Validate PKCE if present".
  unfoldable pub check_pkce : AuthorizationCode → Text → Action (Unit {0})
  check_pkce c verifier =
      if is_cons c.code_challenge
      then (do
        guard (is_cons verifier) pkce_verification_failed
        guard (validate_pkce e verifier c.code_challenge c.code_challenge_method)
            pkce_verification_failed)
      else pure tt

  module _ (code client_id redirect_uri verifier : Text) where
    -- The checks on a consumed code that has not expired, and the tokens.
    unfoldable pub redeem : AuthorizationCode → Action TokenResponse
    redeem c = do
      guard (text_eq (e.uuid_string c.client_id) client_id) invalid_grant
      guard (text_eq c.redirect_uri redirect_uri) invalid_grant
      check_pkce c verifier
      client ← wrap (λ _. invalid_grant) (get_client e tenant c.client_id)
      issue_tokens e tenant client c.user_id c.scope c.id true true (code_context c)

    unfoldable pub drop_expired : Action TokenResponse
    drop_expired = do deleted ← attempt (AuthCode.delete e tenant code); throw invalid_grant

    unfoldable pub on_consumed : Result Consumed → Action TokenResponse
    on_consumed (ok (consumed c)) = do
      now ← clock e
      if is_expired now c.expires_at then drop_expired else redeem c
    on_consumed (ok (already_used c)) = do
      revoke_token_family e tenant c.id
      emit e (code_reused c)
      throw invalid_grant
    on_consumed (err _) = throw invalid_grant

    unfoldable pub exchange_authorization_code : Action TokenResponse
    exchange_authorization_code = attempt (AuthCode.consume e tenant code) >>= on_consumed
