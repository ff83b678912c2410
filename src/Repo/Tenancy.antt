-- ===== src/Repo/Tenancy.antt =====
-- The statements of one tenant, and the rows of another.
use shieldgate.Base.{
  ◌≡◌, ◌≢◌, refl, ap, Bool, false, ◌==◌, List, [], ◌∷◌, Text, arith, select_rows,
  select_rows-delete_rows, select_rows-update_rows, select_rows-cons,
}
use shieldgate.Model.{Result, Uuid, AuthorizationCode, AccessToken, RefreshToken, ok, err}
use shieldgate.Effect.{Db, Env}
use shieldgate.Effect.Keeps.{
  Keeps, Rely, Keeps-bind, Keeps-clock, Keeps-pure, Keeps-attempt, Keeps-throw,
}
use shieldgate.Repo.Keeps.{Keeps-find, Keeps-write, Keeps-change}
use shieldgate.Repo.AuthCode
use shieldgate.Repo.AuthCode.{has_code, has_unused_code, existing_or_missing, updated_or_reread}
use shieldgate.Repo.AccessToken
use shieldgate.Repo.RefreshToken
use shieldgate.Repo.Accounts.{get_client, get_user}

-- The grants and tokens of a tenant.
pub record Holdings : Type 0 where
  pub auth_codes : List AuthorizationCode
  pub access_tokens : List AccessToken
  pub refresh_tokens : List RefreshToken

abbrev pub holdings : Uuid → Db → Holdings
holdings u d = record {
  auth_codes = select_rows (λ c. c.tenant_id == u) d.auth_codes;
  access_tokens = select_rows (λ t. t.tenant_id == u) d.access_tokens;
  refresh_tokens = select_rows (λ t. t.tenant_id == u) d.refresh_tokens;
}

-- The tables hold this for tenant `u`.
abbrev pub Holds : Uuid → Holdings → Db → Type 0
Holds u v d = holdings u d ≡ v

module _ (e : Env) (u tenant : Uuid) (other : tenant ≢ u) where
  module _ {A : Type 0} (owner : A → Uuid) where
    abbrev theirs : List A → List A
    theirs rows = select_rows (λ a. owner a == u) rows

    theirs-delete :
        (p : A → Bool) (rows : List A)
        → ((a : A) → owner a ≡ u → p a ≡ false)
        → theirs (e.database.delete p rows) ≡ theirs rows
    theirs-delete p rows mine =
        rw (e.database.delete_lem p rows)
          (select_rows-delete_rows (λ a. owner a == u) p rows (λ a h. mine a (ground arith)))

    theirs-update :
        (p : A → Bool) (f : A → A) (rows : List A)
        → ((a : A) → owner a ≡ u → p a ≡ false)
        → ((a : A) → owner (f a) ≡ owner a)
        → theirs (e.database.update p f rows).0 ≡ theirs rows
    theirs-update p f rows mine same = rw (e.database.update_lem p f rows) (
        select_rows-update_rows (λ a. owner a == u) p f rows (λ a h. mine a (ground arith))
          (λ a. ap (λ o. o == u) (same a)))

    theirs-insert :
        (a : A) (rows : List A) → owner a ≡ tenant → theirs (e.database.insert a rows) ≡ theirs rows
    theirs-insert a rows h =
        rw (e.database.insert_lem a rows)
          (select_rows-cons (λ b. owner b == u) a rows (ground arith))

  module _ (v : Holdings) (rely : Rely e (Holds u v)) where
    pub AuthCode-create-Holds :
        (c : AuthorizationCode) → c.tenant_id ≡ tenant → Keeps (Holds u v) (AuthCode.create e c)
    unfolding AuthCode.create
    AuthCode-create-Holds c mine = Keeps-bind _ _ (Keeps-clock e) λ now.
        Keeps-write e rely _
          λ d h. rw (theirs-insert (λ a. a.tenant_id) (AuthCode.stored now c) d.auth_codes mine) h

    pub AuthCode-get_by_code-Holds :
        (code : Text) → Keeps (Holds u v) (AuthCode.get_by_code e tenant code)
    unfolding AuthCode.get_by_code
    AuthCode-get_by_code-Holds code = Keeps-find e rely _ _ _

    existing-Holds : (r : Result AuthorizationCode) → Keeps (Holds u v) (existing_or_missing e r)
    unfolding existing_or_missing
    existing-Holds (ok c) = Keeps-pure _
    existing-Holds (err x) = Keeps-throw _

    reread-Holds :
        (code : Text) (rows : List AuthorizationCode)
        → Keeps (Holds u v) (updated_or_reread e tenant code rows)
    unfolding updated_or_reread
    reread-Holds code (c ∷ rows) = Keeps-pure _
    reread-Holds code [] =
        Keeps-bind _ _ (Keeps-attempt _ (AuthCode-get_by_code-Holds code)) existing-Holds

    pub AuthCode-consume-Holds : (code : Text) → Keeps (Holds u v) (AuthCode.consume e tenant code)
    unfolding AuthCode.consume
    AuthCode-consume-Holds code = Keeps-bind _ _ (Keeps-clock e) λ now.
        Keeps-bind _ _
          (Keeps-change e rely _ _ _ _ λ d h.
            rw
              (theirs-update (λ a. a.tenant_id) (has_unused_code tenant code)
                (AuthCode.mark_used now) d.auth_codes (λ a k. ground arith) (λ a. refl))
              h)
          (reread-Holds code)

    pub AuthCode-delete-Holds : (code : Text) → Keeps (Holds u v) (AuthCode.delete e tenant code)
    unfolding AuthCode.delete
    AuthCode-delete-Holds code = Keeps-write e rely _ λ d h.
        rw
          (theirs-delete (λ c. c.tenant_id) (has_code tenant code) d.auth_codes
            (λ a k. ground arith))
          h

    pub AccessToken-create-Holds :
        (t : AccessToken) → t.tenant_id ≡ tenant → Keeps (Holds u v) (AccessToken.create e t)
    unfolding AccessToken.create
    AccessToken-create-Holds t mine = Keeps-bind _ _ (Keeps-clock e) λ now.
        Keeps-write e rely _ λ d h.
          rw (theirs-insert (λ a. a.tenant_id) (AccessToken.stored now t) d.access_tokens mine) h

    pub AccessToken-get_by_token-Holds :
        (token : Text) → Keeps (Holds u v) (AccessToken.get_by_token e tenant token)
    unfolding AccessToken.get_by_token
    AccessToken-get_by_token-Holds token = Keeps-find e rely _ _ _

    pub AccessToken-delete-Holds :
        (token : Text) → Keeps (Holds u v) (AccessToken.delete e tenant token)
    unfolding AccessToken.delete
    AccessToken-delete-Holds token = Keeps-write e rely _ λ d h.
        rw
          (theirs-delete (λ t. t.tenant_id) (AccessToken.has_token tenant token) d.access_tokens
            (λ a k. ground arith))
          h

    pub AccessToken-delete_by_family_id-Holds :
        (family : Uuid) → Keeps (Holds u v) (AccessToken.delete_by_family_id e tenant family)
    unfolding AccessToken.delete_by_family_id
    AccessToken-delete_by_family_id-Holds family = Keeps-write e rely _ λ d h.
        rw
          (theirs-delete (λ t. t.tenant_id) (AccessToken.in_family tenant family) d.access_tokens
            (λ a k. ground arith))
          h

    pub RefreshToken-create-Holds :
        (t : RefreshToken) → t.tenant_id ≡ tenant → Keeps (Holds u v) (RefreshToken.create e t)
    unfolding RefreshToken.create
    RefreshToken-create-Holds t mine = Keeps-bind _ _ (Keeps-clock e) λ now.
        Keeps-write e rely _ λ d h.
          rw (theirs-insert (λ a. a.tenant_id) (RefreshToken.stored now t) d.refresh_tokens mine) h

    pub RefreshToken-get_by_token-Holds :
        (token : Text) → Keeps (Holds u v) (RefreshToken.get_by_token e tenant token)
    unfolding RefreshToken.get_by_token
    RefreshToken-get_by_token-Holds token = Keeps-find e rely _ _ _

    pub RefreshToken-revoke-Holds :
        (token : Text) → Keeps (Holds u v) (RefreshToken.revoke e tenant token)
    unfolding RefreshToken.revoke
    RefreshToken-revoke-Holds token = Keeps-bind _ _ (Keeps-clock e) λ now.
        Keeps-bind _ _
          (Keeps-change e rely _ _ _ _ λ d h.
            rw
              (theirs-update (λ a. a.tenant_id) (RefreshToken.has_live_token tenant token)
                (RefreshToken.mark_revoked now) d.refresh_tokens (λ a k. ground arith) (λ a. refl))
              h)
          λ rows. Keeps-pure _

    pub RefreshToken-delete-Holds :
        (token : Text) → Keeps (Holds u v) (RefreshToken.delete e tenant token)
    unfolding RefreshToken.delete
    RefreshToken-delete-Holds token = Keeps-write e rely _ λ d h.
        rw
          (theirs-delete (λ t. t.tenant_id) (RefreshToken.has_token tenant token) d.refresh_tokens
            (λ a k. ground arith))
          h

    pub RefreshToken-delete_by_family_id-Holds :
        (family : Uuid) → Keeps (Holds u v) (RefreshToken.delete_by_family_id e tenant family)
    unfolding RefreshToken.delete_by_family_id
    RefreshToken-delete_by_family_id-Holds family = Keeps-write e rely _ λ d h.
        rw
          (theirs-delete (λ t. t.tenant_id) (RefreshToken.in_family tenant family) d.refresh_tokens
            (λ a k. ground arith))
          h

    pub get_client-Holds : (id : Uuid) → Keeps (Holds u v) (get_client e tenant id)
    unfolding get_client
    get_client-Holds id = Keeps-find e rely _ _ _

    pub get_user-Holds : (id : Uuid) → Keeps (Holds u v) (get_user e tenant id)
    unfolding get_user
    get_user-Holds id = Keeps-find e rely _ _ _
