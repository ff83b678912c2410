-- ===== src/Users/Sole.antt =====
-- An account that is the only row with its identifier or with its address.
use shieldgate.Base.{
  ◌≡◌, refl, ap, true, false, ◌==◌, ◌⊎◌, inl, inr, Option, none, some, List, [], ◌∷◌, map, Text,
  arith, All, Any, All-Any, Any-All, is_cons, select_rows, update_rows, Bool-cases,
}
use shieldgate.Model.{Uuid, User}
use shieldgate.Effect.{Selects, Env}
use shieldgate.Repo.Statements.{save_row}
use shieldgate.Repo.User.{has_email}

-- The account is stored, and is the only row with its identifier or with its address.
pub record Sole (tenant : Uuid) (email : Text) (u : User) (rows : List User) : Type 0 where
  pub stored : Any (λ r. r ≡ u) rows
  pub only :
      All (λ r. (((r.id == u.id) ≡ false) × (has_email tenant email r ≡ false)) ⊎ (r ≡ u)) rows
  pub matches : has_email tenant email u ≡ true

module _ (e : Env) (tenant : Uuid) (email : Text) where
  -- The query finds the sole account.
  pub first-Sole :
      (u : User) (rows : List User)
      → Sole tenant email u rows
      → e.database.first (has_email tenant email) rows ≡ some u
  first-Sole u rows sole =
      from (e.database.first (has_email tenant email) rows)
        (e.database.first_lem (has_email tenant email) rows)
    where
      from : (o : Option User) → Selects (has_email tenant email) rows o → o ≡ some u
      from none absent =
          let (r, missed, same) = All-Any _ _ rows absent sole.stored in
          absurd (cc (missed, same, sole.matches))
      from (some r) (hit, there) = elim (Any-All _ _ r sole.only there) [
        | inl other ↦ absurd (cc (hit, other.1))
        | inr same ↦ ap some same
      ]

  update-stored :
      (u v : User) (rows : List User)
      → v.id ≡ u.id
      → Any (λ r. r ≡ u) rows
      → Any (λ r. r ≡ v) (update_rows (λ r. r.id == v.id) (λ _. v) rows)
        × (is_cons (map (λ (_ : User). v) (select_rows (λ r. r.id == v.id) rows)) ≡ true)
  unfolding update_rows select_rows
  update-stored u v [] same h = absurd h
  update-stored u v (r ∷ rows) same (inl is_u) =
      let hit : (r.id == v.id) ≡ true = ground (arith, same, ap (λ (x : User). x.id) is_u) in
      rw hit (inl refl, refl)
  update-stored u v (r ∷ rows) same (inr later) =
      let (there, found) = update-stored u v rows same later in
      elim (Bool-cases (r.id == v.id)) [
        | inl hit ↦ rw hit (inr there, refl)
        | inr miss ↦ rw miss (inr there, found)
      ]

  update-only :
      (u v : User) (rows : List User)
      → v.id ≡ u.id
      → All (λ r. (((r.id == u.id) ≡ false) × (has_email tenant email r ≡ false)) ⊎ (r ≡ u)) rows
      → All
          (λ r. (((r.id == v.id) ≡ false) × (has_email tenant email r ≡ false)) ⊎ (r ≡ v))
          (update_rows (λ r. r.id == v.id) (λ _. v) rows)
  unfolding update_rows
  update-only u v [] same h = tt
  update-only u v (r ∷ rows) same (is_u, h) = elim (Bool-cases (r.id == v.id)) [
    | inl hit ↦ rw hit (inr refl, update-only u v rows same h)
    | inr miss ↦ rw miss (
      elim is_u [
        | inl other ↦ inl (miss, other.1)
        | inr eq ↦ absurd (ground (arith, miss, same, ap (λ (x : User). x.id) eq))
      ],
      update-only u v rows same h,
    )
  ]

  -- Saving a new state of the sole account leaves it the sole account.
  pub save-Sole :
      (u v : User) (rows : List User)
      → v.id ≡ u.id
      → has_email tenant email v ≡ true
      → Sole tenant email u rows
      → Sole tenant email v (save_row e (λ r. r.id) v rows)
  unfolding save_row
  save-Sole u v rows same matches sole =
      let (there, found) = update-stored u v rows same sole.stored in
      rw (e.database.update_lem (λ r. r.id == v.id) (λ _. v) rows, found)
        (record { stored = there; only = update-only u v rows same sole.only; matches = matches })
