-- ===== src/Repo/Claims.antt =====
-- Claims: an update of the rows that are still free, which succeeds if it changed one row.
use shieldgate.Base.{
  ◌≡◌, sym, ap, ◌∙◌, subst, Bool, true, false, ◌==◌, List, map, All, length, select_rows,
  All-update_rows, select_rows_none,
}
use shieldgate.Model.{ok}
use shieldgate.Effect.{Env, Db, World, pure, ◌>>=◌}
use shieldgate.Effect.Inversion.{bind-eq-ok, pure-eq-ok}
use shieldgate.Repo.Statements.{change}
use shieldgate.Repo.Outcomes.{seen, change-eq-ok}

-- No row is free.
abbrev pub AllTaken : {A : Type 0} → (A → Bool) → List A → Type 0
AllTaken free rows = All (λ r. free r ≡ false) rows

module _ {A : Type 0} (e : Env) (table : Db → List A) (put : List A → Db → Db) (free : A → Bool)
    (take : A → A) (table-put : (rows : List A) (d : Db) → table (put rows d) ≡ rows)
    (takes : (a : A) → free (take a) ≡ false) where
  one_taken :
      (rows : List A)
      → (length (map take (select_rows free rows)) == 1) ≡ true
      → ¬ AllTaken free rows
  one_taken rows one none_free =
      cc (sym one ∙ ap (λ rs. length (map take rs) == 1) (select_rows_none free rows none_free))

  -- A claim that succeeds met a free row, and leaves none.
  pub claim-eq-true :
      (w : World) {w' : World}
      → (change e table put free take >>= (λ rows. pure (length rows == 1))) w ≡ (ok true, w')
      → (¬ AllTaken free (table (seen e w))) × AllTaken free (table w'.db)
  claim-eq-true w h =
      let (rows, w₁, changed, h₁) = bind-eq-ok _ _ w h in
      let (one, w₁_eq) = pure-eq-ok _ w₁ h₁ in
      let (returned, stored) = change-eq-ok e table put free take w changed in
      let before = table (seen e w) in
      (
        one_taken before (ap (λ (rs : List A). length rs == 1) returned ∙ one),
        subst (λ (v : World). AllTaken free (table v.db)) w₁_eq
            (subst (λ d. AllTaken free (table d)) stored
              (subst (AllTaken free) (sym (table-put _ (seen e w)))
                (All-update_rows free take before takes))),
      )
