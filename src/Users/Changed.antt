-- ===== src/Users/Changed.antt =====
-- The account that a password reset leaves in the table.
use shieldgate.Base.{◌≡◌, refl, subst, Text, Any, Any-intro, ◌&&◌, is_some, Bool-cases, inl, inr}
use shieldgate.Model.{Uuid, Time, User, is_locked_status, ok}
use shieldgate.Effect.{Env, Db, World}
use shieldgate.Effect.Keeps.{Keeps, Rely, kept, keeps_rules}
use shieldgate.Effect.Inversion.{bind-eq-ok, wrap-eq-ok}
use shieldgate.Repo.Keeps.{Keeps-write}
use shieldgate.Repo.Outcomes.{seen, write-eq-ok}
use shieldgate.Repo.Saves.{save_row_has}
use shieldgate.Repo.Session.{delete_sessions_of}
use shieldgate.Repo.AccessToken
use shieldgate.Repo.RefreshToken
use shieldgate.Repo.User.{update_user}
use shieldgate.Users.Service.{end_sessions}
use shieldgate.Users.Links.{reset_to, revoke_user_credentials, finish_reset}
use shieldgate.Users.SignOut.{tail-Keeps}

-- A user with this identifier and this password hash is stored.
abbrev pub HasPassword : Uuid → Text → Db → Type 0
HasPassword user hash d = Any (λ u. (u.id ≡ user) × (u.password_hash ≡ hash)) d.users

-- `reset_to` sets the hash, and not the identifier.
pub reset_to-fields :
    (n : Time) (hash : Text) (u : User)
    → ((reset_to n hash u).id ≡ u.id) × ((reset_to n hash u).password_hash ≡ hash)
reset_to-fields n hash u = elim (Bool-cases (is_locked_status u.status && is_some u.locked_until)) [
  | inl lifted ↦ rw lifted (refl, refl)
  | inr kept_as_is ↦ rw kept_as_is (refl, refl)
]

module _ (e : Env) (tenant : Uuid) where
  update_user-HasPassword :
      (u : User) (w : World) {w' : World}
      → update_user e u w ≡ (ok tt, w')
      → HasPassword u.id u.password_hash w'.db
  unfolding update_user
  update_user-HasPassword u w h =
      let (now, w₁, _, written) = bind-eq-ok _ _ w h in
      let saved : User = record u { updated_at = now } in
      let rows = (seen e w₁).users in
      subst (HasPassword u.id u.password_hash) (write-eq-ok e _ w₁ written) (
        Any-intro (λ r. (r.id ≡ u.id) × (r.password_hash ≡ u.password_hash)) _ saved
          (save_row_has e (λ (r : User). r.id) saved rows) (refl, refl))

  module _ (user : Uuid) (hash : Text) (rely : Rely e (HasPassword user hash)) where
    revoke-Keeps : (id : Uuid) → Keeps (HasPassword user hash) (revoke_user_credentials e tenant id)
    unfolding revoke_user_credentials end_sessions delete_sessions_of AccessToken.delete_by_user_id
        RefreshToken.delete_by_user_id
    revoke-Keeps id = search (keeps_rules, Keeps-write e rely) depth 12

  -- The account stays stored with the new hash, as long as other requests leave it so.
  pub finish-HasPassword :
      (hash : Text) (u : User) (w : World) {found : User} {w' : World}
      → Rely e (HasPassword u.id hash)
      → finish_reset e tenant hash u w ≡ (ok found, w')
      → HasPassword u.id hash w'.db
  unfolding finish_reset
  finish-HasPassword hash u w rely h =
      let (now, w₁, _, h₁) = bind-eq-ok _ _ w h in
      let (_, w₂, updated, h₂) = bind-eq-ok _ _ w₁ h₁ in
      let (_, w₃, revoked, h₃) = bind-eq-ok _ _ w₂ h₂ in
      let v = reset_to now hash u in
      let (same_id, its_hash) = reset_to-fields now hash u in
      let there =
        subst (λ id. HasPassword id hash w₂.db) same_id
          (subst (λ s. HasPassword v.id s w₂.db) its_hash
            (update_user-HasPassword v w₁ (wrap-eq-ok _ _ w₁ updated))) in
      kept _ w₃ (tail-Keeps e tenant rely (λ d rows k. k) v u.id)
        (kept _ w₂ (revoke-Keeps u.id hash rely u.id) there revoked) h₃
