-- ===== src/Users/Login.antt =====
-- What a successful login has checked.
use shieldgate.Base.{
  ℕ, ◌≡◌, ap, ◌∙◌, subst, true, false, not, inl, inr, Text, Any, Bool-cases, not-eq-true,
}
use shieldgate.Model.{Uuid, User, ok, user_locked, user_not_found, is_user_locked}
use shieldgate.Effect.{Env, World}
use shieldgate.Effect.Inversion.{
  bind-eq-ok, wrap-eq-ok, guard-eq-ok, pure-eq-ok, throw-ne-ok, clock-eq-ok,
}
use shieldgate.Repo.Outcomes.{seen, find-eq-ok}
use shieldgate.Repo.User.{has_email, get_by_email}
use shieldgate.Users.Service.{check_password, authenticate}

module _ (e : Env) (tenant : Uuid) (email password : Text) where
  -- A stored account of the tenant and the address, not locked, with this password.
  pub record LoggedIn (w : World) (u : User) : Type 0 where
    pub matches : has_email tenant email u ≡ true
    pub was_stored : Any (λ r. r ≡ u) (seen e w).users
    pub not_locked : (n : ℕ) × (is_user_locked (e.now n) u ≡ false)
    pub knows : e.bcrypt_matches u.password_hash password ≡ true

  check-eq-ok :
      (u : User) (w : World) {found : User} {w' : World}
      → check_password e tenant email password u w ≡ (ok found, w')
      → (e.bcrypt_matches u.password_hash password ≡ true) × (u ≡ found)
  unfolding check_password
  check-eq-ok u w h = elim (Bool-cases (e.bcrypt_matches u.password_hash password)) [
    | inl right ↦
        let (_, w₁, _, k) = bind-eq-ok _ _ w (rw right at h) in (right, (pure-eq-ok u w₁ k).0)
    | inr wrong ↦
        let (_, w₁, _, k) = bind-eq-ok _ _ w (rw wrong at h) in absurd (throw-ne-ok _ w₁ k)
  ]

  -- An account that `Authenticate` returns was stored for this tenant and address when it was
  -- looked up, was not locked, and has the given password. This holds whatever other requests do
  -- and whichever statements fail.
  pub authenticate-LoggedIn :
      (w : World) {u : User} {w' : World}
      → authenticate e tenant email password w ≡ (ok u, w')
      → LoggedIn w u
  unfolding authenticate get_by_email
  authenticate-LoggedIn w h =
      let (r, w₁, read, h₁) = bind-eq-ok _ _ w h in
      let (matches, there, _) =
        find-eq-ok e (λ d. d.users) (has_email tenant email) user_not_found w
          (wrap-eq-ok _ _ w read) in
      let (now, w₂, timed, h₂) = bind-eq-ok _ _ w₁ h₁ in
      let (_, w₃, free, h₃) = bind-eq-ok _ _ w₂ h₂ in
      let (right, same) = check-eq-ok r w₃ h₃ in
      let unlocked =
        not-eq-true _ (guard-eq-ok (not (is_user_locked now r)) user_locked w₂ free).0 in
      subst (LoggedIn w) same (record {
        matches = matches;
        was_stored = there;
        not_locked = (w₁.calls, ap (λ n. is_user_locked n r) (clock-eq-ok e w₁ timed).0 ∙ unlocked);
        knows = right;
      })
