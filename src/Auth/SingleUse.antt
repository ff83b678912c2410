-- ===== src/Auth/SingleUse.antt =====
-- Authorization codes that are presented again.
use shieldgate.Base.{suc, ◌≡◌, refl, subst, Text, Any-All, All-delete_rows_keep}
use shieldgate.Model.{Uuid, Result, ok, err, invalid_grant, AuthorizationCode, TokenResponse}
use shieldgate.Effect.{Env, World, attempt, throw, emit, ◌>>=◌}
use shieldgate.Effect.Keeps.{Keeps, Rely, keeps_rules}
use shieldgate.Effect.Inversion.{bind-eq-ok}
use shieldgate.Repo.Keeps.{Keeps-find, Keeps-write}
use shieldgate.Repo.Accounts.{get_client}
use shieldgate.Repo.AuthCode
use shieldgate.Repo.AuthCode.{Consumed, consumed, already_used, consume, has_code}
use shieldgate.Repo.CodeUse.{Spent, consume-eq-consumed}
use shieldgate.Auth.Issue.{revoke_token_family}
use shieldgate.Auth.IssueKeeps.{issue_tokens-Keeps}
use shieldgate.Auth.Exchange.{
  on_consumed, exchange_authorization_code, check_pkce, redeem, drop_expired,
}
use shieldgate.Auth.CodeGrant.{on_consumed-eq-ok, reused-ne-ok, failed-ne-ok}

module _ (e : Env) (tenant : Uuid) (code : Text) where
  -- `Consume` finds no fresh code where the code is spent.
  consume-Spent :
      (w : World) {c : AuthorizationCode} {w' : World}
      → Spent tenant code (e.others (suc w.calls) w.db)
      → consume e tenant code w ≡ (ok (consumed c), w')
      → ⊥
  consume-Spent w spent h =
      let (row, _, unused, there, _) = consume-eq-consumed e tenant code w h in
      cc (Any-All _ _ row spent there, unused)

  module _ (client_id redirect verifier : Text) where
    on_consumed_spent :
        (r : Result Consumed) (w : World)
        → ((c : AuthorizationCode) → r ≡ ok (consumed c) → ⊥)
        → (on_consumed e tenant code client_id redirect verifier r w).0 ≡ err invalid_grant
    unfolding on_consumed ◌>>=◌ revoke_token_family emit throw
    on_consumed_spent (ok (consumed c)) w not_fresh = absurd (not_fresh c refl)
    on_consumed_spent (ok (already_used c)) w not_fresh = refl
    on_consumed_spent (err x) w not_fresh = refl

    -- Where the consuming update meets no unused row of the code, the exchange answers
    -- `ErrInvalidGrant`, whoever presents the code, whatever other requests do later and whichever
    -- statements fail.
    pub exchange-Spent :
        (w : World)
        → Spent tenant code (e.others (suc w.calls) w.db)
        → (exchange_authorization_code e tenant code client_id redirect verifier w).0
          ≡ err invalid_grant
    unfolding exchange_authorization_code ◌>>=◌
    exchange-Spent w spent =
        on_consumed_spent (consume e tenant code w).0 (consume e tenant code w).1
          (λ c fresh. consume-Spent w spent (λ i. (fresh i, (consume e tenant code w).1)))

  module _ (rely : Rely e (Spent tenant code)) where
    delete-Spent : Keeps (Spent tenant code) (AuthCode.delete e tenant code)
    unfolding AuthCode.delete
    delete-Spent = Keeps-write e rely _ λ d h.
        rw (e.database.delete_lem (has_code tenant code) d.auth_codes)
          (All-delete_rows_keep _ (has_code tenant code) d.auth_codes h)

    module _ (client_id redirect verifier : Text) where
      on_consumed-Spent :
          (c : AuthorizationCode)
          → Keeps
              (Spent tenant code)
              (on_consumed e tenant code client_id redirect verifier (ok (consumed c)))
      unfolding on_consumed redeem drop_expired check_pkce get_client
      on_consumed-Spent c =
          search
            (
              keeps_rules,
              issue_tokens-Keeps e rely (λ d rows h. h) (λ d rows h. h),
              delete-Spent,
              Keeps-find e rely,
            )
            depth 20

      after_exchange :
          (r : Result Consumed) (w w₁ : World) {response : TokenResponse} {w' : World}
          → attempt (consume e tenant code) w ≡ (ok r, w₁)
          → on_consumed e tenant code client_id redirect verifier r w₁ ≡ (ok response, w')
          → Spent tenant code w'.db
      after_exchange (ok (consumed c)) w w₁ tried h =
          subst (λ (v : Result TokenResponse × World). Spent tenant code v.1.db) h
            ((on_consumed-Spent c).at w₁
              (on_consumed-eq-ok e tenant code client_id redirect verifier w w₁ _ tried h).1)
      after_exchange (ok (already_used c)) w w₁ tried h =
          absurd (reused-ne-ok e tenant code client_id redirect verifier c w₁ h)
      after_exchange (err x) w w₁ tried h =
          absurd (failed-ne-ok e tenant code client_id redirect verifier x w₁ h)

      -- Once an exchange of an authorization code has succeeded, every later exchange of the same
      -- code at the same tenant fails with `ErrInvalidGrant`, with whatever client, redirect URI
      -- and verifier it comes, as long as no other request makes a spent code usable again.
      pub exchange_single_use :
          (client_id' redirect' verifier' : Text) (w : World) {response : TokenResponse}
          {w' : World}
          → exchange_authorization_code e tenant code client_id redirect verifier w
            ≡ (ok response, w')
          → (exchange_authorization_code e tenant code client_id' redirect' verifier' w').0
            ≡ err invalid_grant
      unfolding exchange_authorization_code
      exchange_single_use client_id' redirect' verifier' w {response} {w'} h =
          let (r, w₁, tried, k) = bind-eq-ok _ _ w h in
          exchange-Spent client_id' redirect' verifier' w'
            (rely.at (suc w'.calls) w'.db (after_exchange r w w₁ tried k))
