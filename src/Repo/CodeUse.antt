-- ===== src/Repo/CodeUse.antt =====
-- The use of authorization codes: what `Consume` returns on a fresh and on a used code.
use shieldgate.Base.{
  suc, ◌≡◌, sym, ap, ◌∙◌, subst, true, false, List, [], ◌∷◌, map, Text, arith, All, Any,
  select_rows, All-update_rows, All-select_rows,
}
use shieldgate.Model.{Uuid, Time, Result, ok, err, AuthorizationCode}
use shieldgate.Effect.{Db, Env, World, pure, throw}
use shieldgate.Effect.Inversion.{bind-eq-ok, clock-eq-ok}
use shieldgate.Repo.Outcomes.{seen, change-eq-ok}
use shieldgate.Repo.AuthCode.{
  consumed, has_unused_code, put_auth_codes, mark_used, consume, updated_or_reread,
  existing_or_missing,
}

-- No row with this code is unused: the code was exchanged before, or does not exist.
abbrev pub Spent : Uuid → Text → Db → Type 0
Spent tenant code d = All (λ c. has_unused_code tenant code c ≡ false) d.auth_codes

module _ (e : Env) (tenant : Uuid) (code : Text) where
  existing-ne-consumed :
      (r : Result AuthorizationCode) (w : World) {c : AuthorizationCode} {w' : World}
      → existing_or_missing e r w ≡ (ok (consumed c), w')
      → ⊥
  unfolding existing_or_missing pure throw
  existing-ne-consumed (ok a) w h = ground arith
  existing-ne-consumed (err x) w h = ground arith

  -- A freshly consumed code is the first row that the update changed.
  reread-eq-consumed :
      (rows : List AuthorizationCode) (w : World) {c : AuthorizationCode} {w' : World}
      → updated_or_reread e tenant code rows w ≡ (ok (consumed c), w')
      → (rest : List AuthorizationCode) × (rows ≡ c ∷ rest) × (w ≡ w')
  unfolding updated_or_reread
  reread-eq-consumed [] w h =
      let (r, w₁, _, k) = bind-eq-ok _ _ w h in absurd (existing-ne-consumed r w₁ k)
  reread-eq-consumed (a ∷ rest) w h = unfold pure in (rest, ground arith, ground arith)

  row_of :
      (now : Time) (xs : List AuthorizationCode) (c : AuthorizationCode)
      (rest : List AuthorizationCode) (T : AuthorizationCode → Type 0)
      → map (mark_used now) xs ≡ c ∷ rest
      → All T xs
      → (row : AuthorizationCode) × (c ≡ mark_used now row) × T row
  row_of now [] c rest T h a = cc
  row_of now (x ∷ xs) c rest T h a = (x, cc, a.0)

  marked_is_used :
      (now : Time) (c : AuthorizationCode) → has_unused_code tenant code (mark_used now c) ≡ false
  marked_is_used now c = ground arith

  -- A code that `Consume` returns as fresh was a stored, unused row with this tenant and text, comes
  -- back marked as used, and is spent from then on.
  pub consume-eq-consumed :
      (w : World) {c : AuthorizationCode} {w' : World}
      → consume e tenant code w ≡ (ok (consumed c), w')
      → (row : AuthorizationCode) × (c ≡ mark_used (e.now w.calls) row)
        × (has_unused_code tenant code row ≡ true)
        × Any (λ r. r ≡ row) (e.others (suc w.calls) w.db).auth_codes
        × Spent tenant code w'.db
  unfolding consume
  consume-eq-consumed w {c} {w'} h =
      let (now, w₁, read, h₁) = bind-eq-ok _ _ w h in
      let (now_eq, w₁_eq) = clock-eq-ok e w read in
      let (rows, w₂, changed, h₂) = bind-eq-ok _ _ w₁ h₁ in
      let (rest, rows_eq, w₂_eq) = reread-eq-consumed rows w₂ h₂ in
      let (returned, stored) =
        change-eq-ok e (λ d. d.auth_codes) put_auth_codes (has_unused_code tenant code)
          (mark_used now) w₁ changed in
      let d = seen e w₁ in
      let (row, marked, fits) =
        row_of now (select_rows (has_unused_code tenant code) d.auth_codes) c rest _
          (returned ∙ rows_eq) (All-select_rows (has_unused_code tenant code) d.auth_codes) in
      let spent : Spent tenant code w₂.db = subst (Spent tenant code) stored (
        All-update_rows (has_unused_code tenant code) (mark_used now) d.auth_codes
          (λ x. marked_is_used now x)) in
      (
        row,
        marked ∙ ap (λ n. mark_used n row) (sym now_eq),
        fits.0,
        subst (λ (v : World). Any (λ r. r ≡ row) (seen e v).auth_codes) (sym w₁_eq) fits.1,
        subst (λ (v : World). Spent tenant code v.db) w₂_eq spent,
      )
