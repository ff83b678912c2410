-- ===== src/Repo/MfaUse.antt =====
-- What the statements of internal/repo/gorm/mfa.go leave behind when they accept.
use shieldgate.Base.{
  ℕ, suc, ◌≡◌, sym, ap, ◌∙◌, subst, Bool, true, false, ◌==◌, List, map, Text, arith, All, length,
  select_rows, All-update_rows, select_rows_none, Bool-cases, inl, inr, is_cons,
}
use shieldgate.Model.{Uuid, Time, ok, UserMfa}
use shieldgate.Effect.{Env, Db, World}
use shieldgate.Effect.Inversion.{bind-eq-ok, clock-eq-ok, pure-eq-ok, wrap-eq-ok, statement-eq-ok}
use shieldgate.Repo.Outcomes.{seen, change-eq-ok}
use shieldgate.Repo.Mfa.{
  has_older_step, set_step, put_settings, has_unused_hash, mark_code_used, use_step,
  use_recovery_code, spend_code,
}

-- The step, or a later one, was used, or the second factor is not enabled.
abbrev pub StepUsed : Uuid → Uuid → ℕ → Db → Type 0
StepUsed tenant user step d = All (λ m. has_older_step tenant user step m ≡ false) d.user_mfa

-- No unused recovery code of the user has this hash.
abbrev pub CodeUsed : Uuid → Uuid → Text → Db → Type 0
CodeUsed tenant user hash d = All (λ c. has_unused_hash tenant user hash c ≡ false) d.recovery_codes

module _ (e : Env) (tenant user : Uuid) where
  one_changed :
      (p : UserMfa → Bool) (f : UserMfa → UserMfa) (rows : List UserMfa)
      → (length (map f (select_rows p rows)) == 1) ≡ true
      → All (λ m. p m ≡ false) rows
      → ⊥
  one_changed p f rows one none_old =
      cc (sym one ∙ ap (λ rs. length (map f rs) == 1) (select_rows_none p rows none_old))

  -- An accepted step was unused, and is used from then on.
  pub use_step-eq-true :
      (step : ℕ) (w : World) {w' : World}
      → use_step e tenant user step w ≡ (ok true, w')
      → (¬ StepUsed tenant user step (e.others (suc w.calls) w.db))
        × StepUsed tenant user step w'.db
  unfolding use_step
  use_step-eq-true step w h =
      let (now, w₁, read, h₁) = bind-eq-ok _ _ w h in
      let (_, w₁_eq) = clock-eq-ok e w read in
      let (rows, w₂, changed, h₂) = bind-eq-ok _ _ w₁ h₁ in
      let (one, w₂_eq) = pure-eq-ok _ w₂ h₂ in
      let p = has_older_step tenant user step in
      let (returned, stored) =
        change-eq-ok e (λ d. d.user_mfa) put_settings p (set_step step now) w₁ changed in
      let d = seen e w₁ in
      let used : StepUsed tenant user step w₂.db =
        subst (StepUsed tenant user step) stored
          (All-update_rows p (set_step step now) d.user_mfa (λ m. ground arith)) in
      (
        λ r.
            one_changed p (set_step step now) d.user_mfa
              (ap (λ (rs : List UserMfa). length rs == 1) returned ∙ one)
              (subst (λ (v : World). StepUsed tenant user step (seen e v)) w₁_eq r),
        subst (λ (v : World). StepUsed tenant user step v.db) w₂_eq used,
      )

  -- A transaction that used a code met an unused one and left none.
  spend-eq-true :
      (hash : Text) (used cleared : Time) (d : Db)
      → (spend_code e tenant user hash used cleared d).0 ≡ true
      → (¬ CodeUsed tenant user hash d)
        × CodeUsed tenant user hash (spend_code e tenant user hash used cleared d).1
  unfolding spend_code
  spend-eq-true hash used cleared d =
      let p = has_unused_hash tenant user hash in
      let f = mark_code_used used in
      rw (e.database.update_lem p f d.recovery_codes)
        (elim (Bool-cases (is_cons (map f (select_rows p d.recovery_codes)))) [
          | inl some_used ↦ rw some_used (λ _. (
            λ none_left. cc (
                sym some_used
                ∙ ap (λ rs. is_cons (map f rs)) (select_rows_none p d.recovery_codes none_left)),
            All-update_rows p f d.recovery_codes (λ c. ground arith),
          ))
          | inr none_used ↦ rw none_used (λ h. absurd (cc h))
        ])

  -- An accepted recovery code was unused, and none of its hash is left.
  pub use_recovery_code-eq-true :
      (hash : Text) (w : World) {w' : World}
      → use_recovery_code e tenant user hash w ≡ (ok true, w')
      → (¬ CodeUsed tenant user hash (e.others (suc (suc w.calls)) w.db))
        × CodeUsed tenant user hash w'.db
  unfolding use_recovery_code
  use_recovery_code-eq-true hash w h =
      let (used, w₁, read, h₁) = bind-eq-ok _ _ w h in
      let (cleared, w₂, read₂, h₂) = bind-eq-ok _ _ w₁ h₁ in
      let (accepted, db_eq, _) = statement-eq-ok e _ w₂ (wrap-eq-ok _ _ w₂ h₂) in
      let met : record w { calls = suc (suc w.calls) } ≡ w₂ =
        ap (λ (v : World). record v { calls = suc v.calls }) (clock-eq-ok e w read).1
        ∙ (clock-eq-ok e w₁ read₂).1 in
      let (was_unused, now_used) = spend-eq-true hash used cleared (seen e w₂) accepted in
      (
        λ r. was_unused (subst (λ (v : World). CodeUsed tenant user hash (seen e v)) met r),
        subst (CodeUsed tenant user hash) db_eq now_used,
      )
