-- ===== src/Users/Reset.antt =====
-- What a password reset has checked, and what it leaves behind.
use shieldgate.Base.{
  ℕ, suc, ◌≡◌, refl, sym, ap, ◌∙◌, subst, true, false, not, some, Text, arith, len, leb,
  not-eq-true, Any,
}
use shieldgate.Model.{
  Uuid, ok, is_expired, is_suspended, User, PasswordReset, invalid_verification_code,
  verification_expired, user_suspended, user_not_found, password_too_short,
}
use shieldgate.Effect.{Env, Db, World}
use shieldgate.Effect.Keeps.{Rely}
use shieldgate.Effect.Inversion.{bind-eq-ok, wrap-eq-ok, guard-eq-ok, clock-eq-ok, outside-eq-ok}
use shieldgate.Repo.Outcomes.{seen, find-eq-ok}
use shieldgate.Repo.Reads.{ticked, after_read, find-world, outside-world}
use shieldgate.Repo.Claims.{AllTaken, claim-eq-true}
use shieldgate.Repo.Accounts.{is_user, get_user}
use shieldgate.Repo.AccountLinks.{
  has_reset_hash, is_unused_reset, set_reset_used, put_resets, get_by_reset_hash, mark_reset_used,
}
use shieldgate.Users.Service.{hash_password}
use shieldgate.Users.Links.{reset_to, reset_found, reset_password, min_password_length}
use shieldgate.Users.Changed.{HasPassword, reset_to-fields, finish-HasPassword}
use shieldgate.Users.SignOut.{SignedOut, StaysOut, finish-SignedOut}

module _ (e : Env) (tenant : Uuid) where
  -- Where a reset that was found is claimed: after its row, the clock, the account and the hash.
  abbrev pub claim_world : World → World
  claim_world w = ticked (after_read e (ticked (after_read e w)))

  -- A reset that was taken: its stored row, the stored account, the new password, and the claim.
  pub record WasReset (token password : Text) (w : World) (u : User) (w' : World) : Type 0 where
    pub row : PasswordReset
    pub was_stored : Any (λ r. r ≡ row) (seen e w).password_resets
    pub matches : has_reset_hash tenant (e.sha256_base64 token) row ≡ true
    pub in_time : is_expired (e.now (suc w.calls)) row.expires_at ≡ false
    pub account : User
    pub had_account : Any (λ r. r ≡ account) (seen e (ticked (after_read e w))).users
    pub of_user : is_user tenant row.user_id account ≡ true
    pub not_suspended : is_suspended account.status ≡ false
    pub long_enough : leb min_password_length (len password) ≡ true
    pub hash : Text
    pub hashed : (n : ℕ) × (e.bcrypt_hash n password ≡ some hash)
    pub result : (n : ℕ) × (u ≡ reset_to (e.now n) hash account)
    pub was_unused :
        ¬ AllTaken (is_unused_reset row.id) (seen e (ticked (claim_world w))).password_resets
    pub now_stored : HasPassword account.id hash w'.db

  mark_reset_used-eq-true :
      (id : Uuid) (w : World) {w' : World}
      → mark_reset_used e id w ≡ (ok true, w')
      → (¬ AllTaken (is_unused_reset id) (e.others (suc w.calls) w.db).password_resets)
        × AllTaken (is_unused_reset id) w'.db.password_resets
  unfolding mark_reset_used
  mark_reset_used-eq-true id w h =
      let (now, w₁, timed, h₁) = bind-eq-ok _ _ w h in
      let (was_free, taken) =
        claim-eq-true e (λ d. d.password_resets) put_resets (is_unused_reset id)
          (set_reset_used now) (λ rows d. refl) (λ r. ground arith) w₁ h₁ in
      (
        λ r. was_free (
            subst (λ (v : World). AllTaken (is_unused_reset id) (seen e v).password_resets)
              (clock-eq-ok e w timed).1 r),
        taken,
      )

  -- A claimed reset is finished for its user.
  found-WasReset :
      (token password : Text) (row : PasswordReset) (v w : World) {u : User} {w' : World}
      → ((user : Uuid) → StaysOut e tenant user)
      → ((user : Uuid) (hash : Text) → Rely e (HasPassword user hash))
      → after_read e v ≡ w
      → Any (λ r. r ≡ row) (seen e v).password_resets
      → has_reset_hash tenant (e.sha256_base64 token) row ≡ true
      → leb min_password_length (len password) ≡ true
      → reset_found e tenant password row w ≡ (ok u, w')
      → WasReset token password v u w' × SignedOut e tenant u.id w'.db
  unfolding reset_found get_user hash_password
  found-WasReset token password row v w {u} {w'} out keeps at_v stored matches long h =
      let (_, w₁, fresh, h₁) = bind-eq-ok _ _ w h in
      let (now, w₂, timed, h₂) = bind-eq-ok _ _ w₁ h₁ in
      let (_, w₃, young, h₃) = bind-eq-ok _ _ w₂ h₂ in
      let (a, w₄, found, h₄) = bind-eq-ok _ _ w₃ h₃ in
      let (_, w₅, allowed, h₅) = bind-eq-ok _ _ w₄ h₄ in
      let (hash, w₆, hashed, h₆) = bind-eq-ok _ _ w₅ h₅ in
      let (claimed, w₇, claim, h₇) = bind-eq-ok _ _ w₆ h₆ in
      let (_, w₈, won, h₈) = bind-eq-ok _ _ w₇ h₇ in
      let is_claimed = (guard-eq-ok claimed invalid_verification_code w₇ won).0 in
      let in_time =
        guard-eq-ok (not (is_expired now row.expires_at)) verification_expired w₂ young in
      let users = λ (d : Db). d.users in
      let (of_user, had_account, _) =
        find-eq-ok e users (is_user tenant row.user_id) user_not_found w₃ found in
      let not_suspended = guard-eq-ok (not (is_suspended a.status)) user_suspended w₄ allowed in
      let hashed_now = wrap-eq-ok _ _ w₅ hashed in
      let at₁ : after_read e v ≡ w₁ = at_v ∙ (guard-eq-ok _ invalid_verification_code w fresh).1 in
      let at₃ : ticked (after_read e v) ≡ w₃ =
        ap ticked at₁ ∙ (clock-eq-ok e w₁ timed).1 ∙ in_time.1 in
      let at₅ : after_read e (ticked (after_read e v)) ≡ w₅ =
        ap (after_read e) at₃
        ∙ find-world e users (is_user tenant row.user_id) user_not_found w₃ found
        ∙ not_suspended.1 in
      let at₆ : claim_world v ≡ w₆ =
        ap ticked at₅ ∙ outside-world e (λ k. e.bcrypt_hash k password) w₅ hashed_now in
      let (was_unused, _) =
        mark_reset_used-eq-true row.id w₆ (claim ∙ λ i. (ok (is_claimed i), w₇)) in
      let (gone, (n, result)) = finish-SignedOut e tenant hash a w₈ (out a.id) h₈ in
      (
        record {
          row = row;
          was_stored = stored;
          matches = matches;
          in_time =
              ap (λ (x : World). is_expired (e.now x.calls) row.expires_at) at₁
              ∙ ap (λ t. is_expired t row.expires_at) (clock-eq-ok e w₁ timed).0
              ∙ not-eq-true _ in_time.0;
          account = a;
          had_account =
              subst (λ (x : World). Any (λ r. r ≡ a) (seen e x).users) (sym at₃) had_account;
          of_user = of_user;
          not_suspended = not-eq-true _ not_suspended.0;
          long_enough = long;
          hash = hash;
          hashed = (w₅.calls, outside-eq-ok e (λ k. e.bcrypt_hash k password) w₅ hashed_now);
          result = (n, result);
          was_unused =
              subst
                (λ (x : World).
                  ¬ AllTaken (is_unused_reset row.id) (seen e (ticked x)).password_resets)
                (sym at₆) was_unused;
          now_stored = finish-HasPassword e tenant hash a w₈ (keeps a.id hash) h₈;
        },
        subst (λ id. SignedOut e tenant id w'.db)
            (sym (ap (λ (x : User). x.id) result ∙ (reset_to-fields (e.now n) hash a).0)) gone,
      )

  -- A successful `ResetPassword` found a reset of this tenant under the token's hash that was
  -- stored when it was looked up, had not expired at the time read next, and was unused when it was
  -- claimed; the account of the reset was stored when it was looked up, in this tenant, and not
  -- suspended; the returned user is that account with a hash of the new, long enough password, and
  -- such a user is stored afterwards, with no session and no token, as long as other requests store
  -- none for any user of the tenant and do not replace a stored user's password hash.
  pub reset_password-WasReset :
      (token password : Text) (w : World) {u : User} {w' : World}
      → ((user : Uuid) → StaysOut e tenant user)
      → ((user : Uuid) (hash : Text) → Rely e (HasPassword user hash))
      → reset_password e tenant token password w ≡ (ok u, w')
      → WasReset token password w u w' × SignedOut e tenant u.id w'.db
  unfolding reset_password get_by_reset_hash
  reset_password-WasReset token password w out keeps h =
      let (_, w₁, long, h₁) = bind-eq-ok _ _ w h in
      let (_, w₂, given, h₂) = bind-eq-ok _ _ w₁ h₁ in
      let (row, w₃, found, h₃) = bind-eq-ok _ _ w₂ h₂ in
      let p = has_reset_hash tenant (e.sha256_base64 token) in
      let (matches, stored, _) =
        find-eq-ok e (λ d. d.password_resets) p invalid_verification_code w₂ found in
      let is_long =
        guard-eq-ok (leb min_password_length (len password)) password_too_short w long in
      let at₂ : w ≡ w₂ = is_long.1 ∙ (guard-eq-ok _ invalid_verification_code w₁ given).1 in
      found-WasReset token password row w w₃ out keeps
        (ap (after_read e) at₂
          ∙ find-world e (λ d. d.password_resets) p invalid_verification_code w₂ found)
        (subst (λ (x : World). Any (λ r. r ≡ row) (seen e x).password_resets) (sym at₂) stored)
        matches is_long.0 h₃
