-- ===== src/Users/SignOut.antt =====
-- revokeUserCredentials of internal/services/user_service_impl.go, and what it leaves behind.
use shieldgate.Base.{
  ℕ, ◌≡◌, sym, ap, ◌∙◌, subst, false, ◌==◌, ◌&&◌, List, Text, All, All-delete_rows,
}
use shieldgate.Model.{Uuid, ok, wrapped, User, Session, AccessToken, RefreshToken, PasswordReset}
use shieldgate.Effect.{Env, Db, World, wrap, attempt, pure, ◌>>=◌}
use shieldgate.Effect.Keeps.{Keeps, Rely, kept, keeps_rules}
use shieldgate.Effect.Inversion.{bind-eq-ok, wrap-eq-ok, pure-eq-ok, clock-eq-ok}
use shieldgate.Repo.Keeps.{Keeps-write, Keeps-change}
use shieldgate.Repo.Outcomes.{seen, write-eq-ok}
use shieldgate.Repo.Session.{delete_sessions_of}
use shieldgate.Repo.AccessToken
use shieldgate.Repo.RefreshToken
use shieldgate.Repo.AccountLinks.{revoke_unused_resets}
use shieldgate.Users.Service.{end_sessions, send_template, notify_password_changed}
use shieldgate.Users.Links.{reset_to, revoke_user_credentials, finish_reset}

-- The user has no session.
abbrev pub NoSession : Uuid → Uuid → Db → Type 0
NoSession tenant user d = All (λ s. (s.tenant_id == tenant && s.user_id == user) ≡ false) d.sessions

abbrev pub NoAccess : Uuid → Uuid → Db → Type 0
NoAccess tenant user d =
    All (λ t. (t.tenant_id == tenant && t.user_id == user) ≡ false) d.access_tokens

abbrev pub NoRefresh : Uuid → Uuid → Db → Type 0
NoRefresh tenant user d =
    All (λ t. (t.tenant_id == tenant && t.user_id == user) ≡ false) d.refresh_tokens

module _ (e : Env) (tenant : Uuid) where
  pub delete-NoSession :
      (user : Uuid) (w : World) {w' : World}
      → delete_sessions_of e tenant user w ≡ (ok tt, w')
      → NoSession tenant user w'.db
  unfolding delete_sessions_of
  delete-NoSession user w h =
      let p = λ (s : Session). s.tenant_id == tenant && s.user_id == user in
      subst (NoSession tenant user) (write-eq-ok e _ w h)
        (rw (e.database.delete_lem p (seen e w).sessions) (All-delete_rows p (seen e w).sessions))

  end-NoSession :
      (user : Uuid) (w : World) {w' : World}
      → end_sessions e tenant user w ≡ (ok tt, w')
      → NoSession tenant user w'.db
  unfolding end_sessions
  end-NoSession user w h = delete-NoSession user w (wrap-eq-ok _ _ w h)

  delete-NoAccess :
      (user : Uuid) (w : World) {w' : World}
      → AccessToken.delete_by_user_id e tenant user w ≡ (ok tt, w')
      → NoAccess tenant user w'.db
  unfolding AccessToken.delete_by_user_id
  delete-NoAccess user w h =
      let p = λ (t : AccessToken). t.tenant_id == tenant && t.user_id == user in
      subst (NoAccess tenant user) (write-eq-ok e _ w h) (
        rw (e.database.delete_lem p (seen e w).access_tokens)
          (All-delete_rows p (seen e w).access_tokens))

  delete-NoRefresh :
      (user : Uuid) (w : World) {w' : World}
      → RefreshToken.delete_by_user_id e tenant user w ≡ (ok tt, w')
      → NoRefresh tenant user w'.db
  unfolding RefreshToken.delete_by_user_id
  delete-NoRefresh user w h =
      let p = λ (t : RefreshToken). t.tenant_id == tenant && t.user_id == user in
      subst (NoRefresh tenant user) (write-eq-ok e _ w h) (
        rw (e.database.delete_lem p (seen e w).refresh_tokens)
          (All-delete_rows p (seen e w).refresh_tokens))

  -- The user has no session and no token.
  pub record SignedOut (user : Uuid) (d : Db) : Type 0 where
    pub no_session : NoSession tenant user d
    pub no_access : NoAccess tenant user d
    pub no_refresh : NoRefresh tenant user d

  -- Other requests do not sign the user in again.
  pub record StaysOut (user : Uuid) : Type 0 where
    pub no_session : Rely e (NoSession tenant user)
    pub no_access : Rely e (NoAccess tenant user)
    pub no_refresh : Rely e (NoRefresh tenant user)

  module _ {P : Db → Type 0} (rely : Rely e P) where
    delete_access-Keeps :
        ((d : Db) (rows : List AccessToken) → P d → P (record d { access_tokens = rows }))
        → (user : Uuid) → Keeps P (wrap wrapped (AccessToken.delete_by_user_id e tenant user))
    unfolding AccessToken.delete_by_user_id
    delete_access-Keeps other user = search (keeps_rules, Keeps-write e rely, other)

    delete_refresh-Keeps :
        ((d : Db) (rows : List RefreshToken) → P d → P (record d { refresh_tokens = rows }))
        → (user : Uuid) → Keeps P (wrap wrapped (RefreshToken.delete_by_user_id e tenant user))
    unfolding RefreshToken.delete_by_user_id
    delete_refresh-Keeps other user = search (keeps_rules, Keeps-write e rely, other)

  revoke-SignedOut :
      (user : Uuid) (w : World) {w' : World}
      → StaysOut user
      → revoke_user_credentials e tenant user w ≡ (ok tt, w')
      → SignedOut user w'.db
  unfolding revoke_user_credentials
  revoke-SignedOut user w out h =
      let (_, w₁, ended, h₁) = bind-eq-ok _ _ w h in
      let (_, w₂, deleted, h₂) = bind-eq-ok _ _ w₁ h₁ in
      let session = end-NoSession user w ended in
      let access = delete-NoAccess user w₁ (wrap-eq-ok _ _ w₁ deleted) in
      record {
        no_session =
            kept _ w₂ (delete_refresh-Keeps out.no_session (λ d rows k. k) user)
              (kept _ w₁ (delete_access-Keeps out.no_session (λ d rows k. k) user) session deleted)
              h₂;
        no_access = kept _ w₂ (delete_refresh-Keeps out.no_access (λ d rows k. k) user) access h₂;
        no_refresh = delete-NoRefresh user w₂ (wrap-eq-ok _ _ w₂ h₂);
      }

  module _ {P : Db → Type 0} (rely : Rely e P)
      (resets : (d : Db) (rows : List PasswordReset)
        → P d
        → P (record d { password_resets = rows })) where
    revoke_unused_resets-Keeps : (user : Uuid) → Keeps P (revoke_unused_resets e tenant user)
    unfolding revoke_unused_resets
    revoke_unused_resets-Keeps user = search (keeps_rules, Keeps-change e rely, resets)

    notify-Keeps : (u : User) → Keeps P (notify_password_changed e tenant u)
    unfolding notify_password_changed send_template
    notify-Keeps u = search keeps_rules depth 10

    pub tail-Keeps :
        (u : User) (user : Uuid)
        → Keeps P (
            attempt (revoke_unused_resets e tenant user)
            >>= (λ _. notify_password_changed e tenant u >>= (λ _. pure u)))
    tail-Keeps u user = search (keeps_rules, revoke_unused_resets-Keeps, notify-Keeps)

  pub finish-SignedOut :
      (hash : Text) (u : User) (w : World) {found : User} {w' : World}
      → StaysOut u.id
      → finish_reset e tenant hash u w ≡ (ok found, w')
      → SignedOut u.id w'.db × ((n : ℕ) × (found ≡ reset_to (e.now n) hash u))
  unfolding finish_reset
  finish-SignedOut hash u w out h =
      let (now, w₁, timed, h₁) = bind-eq-ok _ _ w h in
      let (_, w₂, _, h₂) = bind-eq-ok _ _ w₁ h₁ in
      let (_, w₃, revoked, h₃) = bind-eq-ok _ _ w₂ h₂ in
      let (_, w₄, _, h₄) = bind-eq-ok _ _ w₃ h₃ in
      let (_, w₅, _, h₅) = bind-eq-ok _ _ w₄ h₄ in
      let gone = revoke-SignedOut u.id w₂ out revoked in
      let v = reset_to now hash u in
      (
        record {
          no_session =
              kept _ w₃ (tail-Keeps out.no_session (λ d rows h. h) v u.id) gone.no_session h₃;
          no_access = kept _ w₃ (tail-Keeps out.no_access (λ d rows h. h) v u.id) gone.no_access h₃;
          no_refresh =
              kept _ w₃ (tail-Keeps out.no_refresh (λ d rows h. h) v u.id) gone.no_refresh h₃;
        },
        (
          w.calls,
          sym (pure-eq-ok _ w₅ h₅).0 ∙ ap (λ n. reset_to n hash u) (sym (clock-eq-ok e w timed).0),
        ),
      )
