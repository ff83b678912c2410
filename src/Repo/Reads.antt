-- ===== src/Repo/Reads.antt =====
-- The worlds that a request goes through when it reads: the clock, an outside call, a query.
use shieldgate.Base.{List, ℕ, suc, ◌≡◌, ◌∙◌, Bool, Option, arith}
use shieldgate.Model.{Error, ok}
use shieldgate.Effect.{Db, Env, World, outside, statement}
use shieldgate.Effect.Inversion.{bind-eq-ok, wrap-eq-ok, or_fail-eq-ok}
use shieldgate.Repo.Statements.{find}
use shieldgate.Repo.Outcomes.{seen}

-- After a call that is no statement.
abbrev pub ticked : World → World
ticked w = record w { calls = suc w.calls }

-- After a query: the tables are as it met them.
abbrev pub after_read : Env → World → World
after_read e w = record w { db = seen e w; calls = suc w.calls }

module _ (e : Env) where
  query-world :
      {A : Type 0} (f : Db → A) (w : World) {a : A} {w' : World}
      → statement e (λ d. (f d, d)) w ≡ (ok a, w')
      → after_read e w ≡ w'
  unfolding statement
  query-world f w h = ground arith

  pub find-world :
      {A : Type 0} (table : Db → List A) (p : A → Bool) (x : Error) (w : World) {a : A} {w' : World}
      → find e table p x w ≡ (ok a, w')
      → after_read e w ≡ w'
  unfolding find
  find-world table p x w h =
      let (row, w₁, stated, failed) = bind-eq-ok _ _ w h in
      query-world _ w (wrap-eq-ok _ _ w stated) ∙ (or_fail-eq-ok row x w₁ failed).1

  pub outside-world :
      {A : Type 0} (f : ℕ → Option A) (w : World) {a : A} {w' : World}
      → outside e f w ≡ (ok a, w')
      → ticked w ≡ w'
  unfolding outside
  outside-world f w h = (or_fail-eq-ok (f w.calls) _ _ h).1
