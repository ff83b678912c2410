-- ===== src/Users/Lockout.antt =====
-- The lockout after wrong passwords.
use shieldgate.Base.{
  ℕ, zero, suc, ◌+◌, ◌≤◌, ◌≡◌, refl, sym, ap, ◌∙◌, subst, true, false, leb, ◌⊎◌, inl, inr, none, [],
  Text, arith, Bool-cases,
}
use shieldgate.Model.{
  Uuid, Time, Result, ok, err, User, locked, user_locked, is_user_locked, is_locked_status,
}
use shieldgate.Effect.{Db, Env, World, statement, clock, attempt, wrap, or_fail, throw, pure, ◌>>=◌}
use shieldgate.Repo.Statements.{find, write, save_row}
use shieldgate.Repo.User.{has_email, save_user, get_by_email, update_user}
use shieldgate.Users.Service.{
  max_login_attempts, failed_login, record_found, record_login_attempt, check_password,
  authenticate,
}
use shieldgate.Users.Sole.{Sole, first-Sole, save-Sole}

-- Not locked, by its status or by a time.
pub record Open (u : User) : Type 0 where
  pub unlocked : is_locked_status u.status ≡ false
  pub no_end : u.locked_until ≡ none

module _ (e : Env) (sound : (n : ℕ) → e.fails n ≡ false)
    (quiet : (n : ℕ) (d : Db) → e.others n d ≡ d) (tenant : Uuid) (email hash : Text) where
  -- The sole account of this password is locked, or open with at least `k` counted failures, and
  -- fewer than five if there was one.
  pub record Tried (k : ℕ) (w : World) : Type 0 where
    pub account : User
    pub sole : Sole tenant email account w.db.users
    pub keeps : account.password_hash ≡ hash
    pub state :
        (account.status ≡ locked)
        ⊎ (Open account
            × (k ≤ account.failed_login_attempts)
            × ((k ≡ 0) ⊎ (suc account.failed_login_attempts ≤ max_login_attempts)))

  get_runs :
      (u : User) (w : World)
      → Sole tenant email u w.db.users
      → get_by_email e tenant email w ≡ (ok u, record w { calls = suc w.calls })
  unfolding get_by_email find statement wrap or_fail ◌>>=◌
  get_runs u w sole =
      rw (sound w.calls, quiet w.calls w.db, first-Sole e tenant email u w.db.users sole) refl

  update_runs :
      (u : User) (w : World)
      → update_user e u w
        ≡ (ok tt, record w { db = save_user e (e.now w.calls) u w.db; calls = suc (suc w.calls) })
  unfolding update_user write statement wrap clock ◌>>=◌
  update_runs u w = rw (sound (suc w.calls), quiet (suc w.calls) w.db) refl

  -- What a wrong password makes of an account.
  abbrev after_failure : (t₁ t₂ : Time) → User → User
  after_failure t₁ t₂ u = record (failed_login t₁ u) { updated_at = t₂ }

  record_runs :
      (u : User) (w : World)
      → Sole tenant email u w.db.users
      → (record_login_attempt e tenant email [] false w).1.db.users
        ≡ save_row e
            (λ r. r.id)
            (after_failure (e.now (suc w.calls)) (e.now (suc (suc w.calls))) u)
            w.db.users
  unfolding record_login_attempt record_found attempt clock ◌>>=◌
  record_runs u w sole =
      rw
        (
          get_runs u w sole,
          update_runs (failed_login (e.now (suc w.calls)) u)
              (record w { calls = suc (suc w.calls) }),
        )
        refl

  after-id : (t₁ t₂ : Time) (u : User) → (after_failure t₁ t₂ u).id ≡ u.id
  after-id t₁ t₂ u = elim (Bool-cases (leb 5 (u.failed_login_attempts + 1))) [
    | inl many ↦ rw many refl
    | inr few ↦ rw few refl
  ]

  after-hash : (t₁ t₂ : Time) (u : User) → (after_failure t₁ t₂ u).password_hash ≡ u.password_hash
  after-hash t₁ t₂ u = elim (Bool-cases (leb 5 (u.failed_login_attempts + 1))) [
    | inl many ↦ rw many refl
    | inr few ↦ rw few refl
  ]

  after-matches :
      (t₁ t₂ : Time) (u : User)
      → has_email tenant email u ≡ true
      → has_email tenant email (after_failure t₁ t₂ u) ≡ true
  after-matches t₁ t₂ u h = elim (Bool-cases (leb 5 (u.failed_login_attempts + 1))) [
    | inl many ↦ rw many h
    | inr few ↦ rw few h
  ]

  after-state :
      (k : ℕ) (t₁ t₂ : Time) (u : User)
      → Open u
      → k ≤ u.failed_login_attempts
      → let v = after_failure t₁ t₂ u in
        (v.status ≡ locked)
        ⊎ (Open v
            × (suc k ≤ v.failed_login_attempts)
            × ((suc k ≡ 0) ⊎ (suc v.failed_login_attempts ≤ max_login_attempts)))
  after-state k t₁ t₂ u open_u le = elim (Bool-cases (leb 5 (u.failed_login_attempts + 1))) [
    | inl many ↦ rw many (inl refl)
    | inr few ↦ rw few (
        inr (
          record { unlocked = open_u.unlocked; no_end = open_u.no_end },
          omega arith,
          inr (ground arith),
        ))
  ]

  locked_lem : (n : Time) (u : User) → u.status ≡ locked → is_user_locked n u ≡ true
  unfolding is_user_locked
  locked_lem n u s = rw s refl

  open_lem : (n : Time) (u : User) → Open u → is_user_locked n u ≡ false
  unfolding is_user_locked
  open_lem n u o = rw (o.unlocked, o.no_end) refl

  -- A locked account is refused before its password is looked at, and nothing is written.
  locked_refuses :
      (password : Text) (u : User) (w : World)
      → Sole tenant email u w.db.users
      → u.status ≡ locked
      → authenticate e tenant email password w
        ≡ (err user_locked, record w { calls = suc (suc w.calls) })
  unfolding authenticate wrap clock throw ◌>>=◌
  locked_refuses password u w sole s =
      rw (get_runs u w sole, locked_lem (e.now (suc w.calls)) u s) refl

  wrong_users :
      (password : Text) (u : User) (w : World)
      → Sole tenant email u w.db.users
      → Open u
      → e.bcrypt_matches u.password_hash password ≡ false
      → let v = record w { calls = suc (suc w.calls) } in
        (authenticate e tenant email password w).1
        ≡ (record_login_attempt e tenant email [] false v).1
  unfolding authenticate check_password wrap clock pure throw attempt ◌>>=◌
  wrong_users password u w sole open_u wrong =
      rw (get_runs u w sole, open_lem (e.now (suc w.calls)) u open_u, wrong) refl

  wrong-Tried :
      (k : ℕ) (password : Text) (w : World)
      → e.bcrypt_matches hash password ≡ false
      → Tried k w
      → Tried (suc k) (authenticate e tenant email password w).1
  wrong-Tried k password w wrong tried = elim tried.state [
    | inl is_locked ↦
        subst (λ (v : World). Tried (suc k) v)
          (sym (
            ap (λ (r : Result User × World). r.1)
              (locked_refuses password tried.account w tried.sole is_locked)))
          (record {
            account = tried.account;
            sole = tried.sole;
            keeps = tried.keeps;
            state = inl is_locked;
          })
    | inr (open_u, le, _) ↦
        let u = tried.account in
        let v : World = record w { calls = suc (suc w.calls) } in
        let t₁ = e.now (suc v.calls) in
        let t₂ = e.now (suc (suc v.calls)) in
        let wrong_u : e.bcrypt_matches u.password_hash password ≡ false =
          ap (λ h. e.bcrypt_matches h password) tried.keeps ∙ wrong in
        subst (λ (x : World). Tried (suc k) x)
          (sym (wrong_users password u w tried.sole open_u wrong_u))
          (record {
            account = after_failure t₁ t₂ u;
            sole =
                subst (Sole tenant email (after_failure t₁ t₂ u)) (sym (record_runs u v tried.sole))
                  (save-Sole e tenant email u (after_failure t₁ t₂ u) w.db.users (after-id t₁ t₂ u)
                    (after-matches t₁ t₂ u tried.sole.matches) tried.sole);
            keeps = after-hash t₁ t₂ u ∙ tried.keeps;
            state = after-state k t₁ t₂ u open_u le;
          })
  ]

  -- That many logins in a row, each with its password.
  abbrev pub tries : ℕ → (ℕ → Text) → World → World
  tries zero passwords w = w
  tries (suc k) passwords w = (authenticate e tenant email (passwords k) (tries k passwords w)).1

  tries-Tried :
      (k : ℕ) (passwords : ℕ → Text) (w : World)
      → ((n : ℕ) → e.bcrypt_matches hash (passwords n) ≡ false)
      → Tried 0 w
      → Tried k (tries k passwords w)
  tries-Tried zero passwords w wrong tried = tried
  tries-Tried (suc k) passwords w wrong tried =
      wrong-Tried k (passwords k) (tries k passwords w) (wrong k)
        (tries-Tried k passwords w wrong tried)

  five-locked : (w : World) → (t : Tried max_login_attempts w) → t.account.status ≡ locked
  five-locked w t = elim t.state [
    | inl is_locked ↦ is_locked
    | inr (_, le, few) ↦ elim few [
      | inl z ↦ absurd (omega arith)
      | inr small ↦ absurd (omega arith)
    ]
  ]

  -- If no statement fails and other requests change nothing, five wrong passwords for an account
  -- that is not locked and is the only one of its identifier and address lock it for good: every
  -- later login on the tables as they are then, at any time and with any password, is refused as
  -- locked.
  pub lockout :
      (u : User) (w later : World) (passwords : ℕ → Text) (password : Text)
      → Sole tenant email u w.db.users
      → Open u
      → u.password_hash ≡ hash
      → ((n : ℕ) → e.bcrypt_matches hash (passwords n) ≡ false)
      → later.db ≡ (tries max_login_attempts passwords w).db
      → (authenticate e tenant email password later).0 ≡ err user_locked
  lockout u w later passwords password sole open_u keeps wrong same =
      let t = tries-Tried max_login_attempts passwords w wrong (record {
        account = u;
        sole = sole;
        keeps = keeps;
        state = inr (open_u, omega arith, inl refl);
      }) in
      ap (λ (r : Result User × World). r.0)
        (locked_refuses password t.account later
          (subst (λ d. Sole tenant email t.account d.users) (sym same) t.sole) (five-locked _ t))
