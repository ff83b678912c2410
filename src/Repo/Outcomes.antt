-- ===== src/Repo/Outcomes.antt =====
-- What the results of the repositories' methods tell of the tables.
use shieldgate.Base.{◌≡◌, sym, ap, ◌∙◌, subst, Bool, true, List, map, Any, select_rows, update_rows}
use shieldgate.Model.{Error, ok}
use shieldgate.Effect.{Selects, Db, Env, World}
use shieldgate.Effect.Inversion.{or_fail-eq-ok, bind-eq-ok, wrap-eq-ok, statement-eq-ok}
use shieldgate.Repo.Statements.{find, write, change}

-- The tables that the next statement of a request meets.
abbrev pub seen : Env → World → Db
seen e w = e.others w.calls w.db

module _ (e : Env) where
  -- A row that is found is a row of the table and matches; the tables are as the statement met them.
  pub find-eq-ok :
      {A : Type 0} (table : Db → List A) (p : A → Bool) (x : Error) (w : World) {a : A} {w' : World}
      → find e table p x w ≡ (ok a, w')
      → (p a ≡ true) × Any (λ r. r ≡ a) (table (seen e w)) × (w'.db ≡ seen e w)
  unfolding find
  find-eq-ok table p x w {a} {w'} h =
      let (row, w₁, stated, failed) = bind-eq-ok _ _ w h in
      let (found, same, _) = statement-eq-ok e _ w (wrap-eq-ok _ _ w stated) in
      let (is_some, w_eq) = or_fail-eq-ok row x w₁ failed in
      let selected =
        subst (Selects p (table (seen e w))) (found ∙ is_some)
          (e.database.first_lem p (table (seen e w))) in
      (selected.0, selected.1, ap (λ (v : World). v.db) (sym w_eq) ∙ sym same)

  pub change-eq-ok :
      {A : Type 0} (table : Db → List A) (put : List A → Db → Db) (p : A → Bool) (f : A → A)
      (w : World) {rows : List A} {w' : World}
      → change e table put p f w ≡ (ok rows, w')
      → (map f (select_rows p (table (seen e w))) ≡ rows)
        × (put (update_rows p f (table (seen e w))) (seen e w) ≡ w'.db)
  unfolding change
  change-eq-ok table put p f w h =
      let (rows_eq, db_eq, _) = statement-eq-ok e _ w (wrap-eq-ok _ _ w h) in
      let law = e.database.update_lem p f (table (seen e w)) in
      (sym (ap (λ x. x.1) law) ∙ rows_eq, sym (ap (λ x. put x.0 (seen e w)) law) ∙ db_eq)

  -- A write that succeeded leaves its effect on the tables that it met.
  pub write-eq-ok :
      (f : Db → Db) (w : World) {w' : World} → write e f w ≡ (ok tt, w') → f (seen e w) ≡ w'.db
  unfolding write
  write-eq-ok f w h = (statement-eq-ok e _ w (wrap-eq-ok _ _ w h)).1
