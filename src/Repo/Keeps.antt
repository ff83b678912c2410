-- ===== src/Repo/Keeps.antt =====
-- What each shape of statement keeps.
use shieldgate.Base.{Bool, List}
use shieldgate.Model.{Error, wrapped}
use shieldgate.Effect.{Db, Env}
use shieldgate.Effect.Keeps.{Keeps, Rely, Keeps-bind, Keeps-wrap, Keeps-or_fail, Keeps-statement}
use shieldgate.Repo.Statements.{find, write, change}

module _ (e : Env) {P : Db → Type 0} (rely : Rely e P) where
  pub Keeps-find :
      {A : Type 0} (table : Db → List A) (p : A → Bool) (x : Error) → Keeps P (find e table p x)
  unfolding find
  Keeps-find table p x =
      Keeps-bind _ _
        (Keeps-wrap wrapped _
          (Keeps-statement e (λ d. (e.database.first p (table d), d)) rely (λ d h. h)))
        (λ row. Keeps-or_fail row x)

  pub Keeps-write : (f : Db → Db) → ((d : Db) → P d → P (f d)) → Keeps P (write e f)
  unfolding write
  Keeps-write f k = Keeps-wrap wrapped _ (Keeps-statement e (λ d. (tt, f d)) rely k)

  pub Keeps-change :
      {A : Type 0} (table : Db → List A) (put : List A → Db → Db) (p : A → Bool) (f : A → A)
      → ((d : Db) → P d → P (put (e.database.update p f (table d)).0 d))
      → Keeps P (change e table put p f)
  unfolding change
  Keeps-change table put p f k = Keeps-wrap wrapped _ (Keeps-statement e _ rely k)
