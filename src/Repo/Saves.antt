-- ===== src/Repo/Saves.antt =====
-- gorm's `Save` of a row (Repo/Statements) and `Create` of a token: what the table holds afterwards.
use shieldgate.Base.{
  subst, List, [], ◌∷◌, Bool, true, ◌==◌, ◌≡◌, refl, inl, inr, map, Any, Bool-cases, is_cons,
  select_rows, update_rows,
}
use shieldgate.Model.{Uuid, Time, ok, AccessToken, RefreshToken}
use shieldgate.Effect.{Env, Db, World}
use shieldgate.Effect.Inversion.{bind-eq-ok}
use shieldgate.Repo.Outcomes.{seen, write-eq-ok}
use shieldgate.Repo.AccessToken
use shieldgate.Repo.RefreshToken
use shieldgate.Repo.Statements.{save_row}

-- An update that touched a row leaves what it wrote.
update_rows_has :
    {A : Type 0} (p : A → Bool) (a : A) (rows : List A)
    → is_cons (map (λ _. a) (select_rows p rows)) ≡ true
    → Any (λ r. r ≡ a) (update_rows p (λ _. a) rows)
unfolding update_rows select_rows
update_rows_has p a [] h = absurd (cc h)
update_rows_has p a (x ∷ rows) h = elim (Bool-cases (p x)) [
  | inl here ↦ rw here (inl refl)
  | inr there ↦ rw there (inr (update_rows_has p a rows (rw there at h)))
]

-- The saved row is stored.
pub save_row_has :
    {A : Type 0} (e : Env) (key : A → Uuid) (a : A) (rows : List A)
    → Any (λ r. r ≡ a) (save_row e key a rows)
unfolding save_row
save_row_has {A} e key a rows =
    let p : A → Bool = λ r. key r == key a in
    rw (e.database.update_lem p (λ _. a) rows)
      (elim (Bool-cases (is_cons (map (λ _. a) (select_rows p rows)))) [
        | inl touched ↦ rw touched (update_rows_has p a rows touched)
        | inr untouched ↦
            rw (untouched, e.database.insert_lem a (update_rows p (λ _. a) rows)) (inl refl)
      ])

-- A created token is stored, under the time of its creation.
pub create_access-stored :
    (e : Env) (row : AccessToken) (w : World) {w' : World}
    → AccessToken.create e row w ≡ (ok tt, w')
    → (n : Time) × Any (λ r. r ≡ AccessToken.stored n row) w'.db.access_tokens
unfolding AccessToken.create
create_access-stored e row w h =
    let (now, w₁, _, written) = bind-eq-ok _ _ w h in
    (
      now,
      subst (λ (d : Db). Any (λ r. r ≡ AccessToken.stored now row) d.access_tokens)
          (write-eq-ok e _ w₁ written)
          (rw (e.database.insert_lem (AccessToken.stored now row) (seen e w₁).access_tokens)
            (inl refl)),
    )

pub create_refresh-stored :
    (e : Env) (row : RefreshToken) (w : World) {w' : World}
    → RefreshToken.create e row w ≡ (ok tt, w')
    → (n : Time) × Any (λ r. r ≡ RefreshToken.stored n row) w'.db.refresh_tokens
unfolding RefreshToken.create
create_refresh-stored e row w h =
    let (now, w₁, _, written) = bind-eq-ok _ _ w h in
    (
      now,
      subst (λ (d : Db). Any (λ r. r ≡ RefreshToken.stored now row) d.refresh_tokens)
          (write-eq-ok e _ w₁ written)
          (rw (e.database.insert_lem (RefreshToken.stored now row) (seen e w₁).refresh_tokens)
            (inl refl)),
    )
