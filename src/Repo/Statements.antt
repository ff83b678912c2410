-- ===== src/Repo/Statements.antt =====
-- The shape of the repositories' methods: one gorm call each, its error wrapped.
use shieldgate.Base.{◌==◌, if◌then◌else◌, Bool, List, is_cons}
use shieldgate.Model.{Uuid, Time, Error, wrapped}
use shieldgate.Effect.{Db, Env, Action, statement, wrap, or_fail, ◌>>=◌}

-- `autoCreateTime`: the creation time that gorm stores.
abbrev pub created_time : Time → Time → Time
created_time now created = if created == 0 then now else created

-- gorm's `Save`: all columns of the row with this primary key, or a new row if there is none. A soft
-- deletion does not hide the row from it.
unfoldable pub save_row : {A : Type 0} → Env → (A → Uuid) → A → List A → List A
save_row e key a rows =
    let (after, changed) = e.database.update (λ r. key r == key a) (λ _. a) rows in
    if is_cons changed then after else e.database.insert a after

module _ (e : Env) where
  -- `db.Where(p).First(&row)`: the error for a missing row is the caller's.
  unfoldable pub find : {A : Type 0} → (Db → List A) → (A → Bool) → Error → Action A
  find table p missing = do
    row ← wrap wrapped (statement e (λ d. (e.database.first p (table d), d)))
    or_fail row missing

  -- `db.Create`, `db.Delete`: a statement that returns nothing.
  unfoldable pub write : (Db → Db) → Action (Unit {0})
  write f = wrap wrapped (statement e (λ d. (tt, f d)))

  -- `db.Model(…).Where(p).Updates(f)`: the rows that changed.
  unfoldable pub change :
      {A : Type 0} → (Db → List A) → (List A → Db → Db) → (A → Bool) → (A → A) → Action (List A)
  change table put p f = wrap wrapped (
      statement e
        λ d. let (rows, changed) = e.database.update p f (table d) in (changed, put rows d))
