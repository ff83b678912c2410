-- ===== src/Effect/Inversion.antt =====
-- What a successful action tells of its parts.
use shieldgate.Base.{
  Option, some, ℕ, suc, ◌≡◌, refl, ap, Bool, true, false, arith, ◌⊎◌, inl, inr, if◌then◌else◌,
}
use shieldgate.Model.{internal, Time, Error, Result, ok, err}
use shieldgate.Effect.Outside.{Db, Env, World}
use shieldgate.Effect.Actions.{
  Action, or_fail, outside, pure, throw, lift, attempt, wrap, guard, clock, ◌>>=◌, statement,
}

module _ {ℓ κ} {A : Type ℓ} {B : Type κ} where
  continue-eq-ok :
      (r : Result A) (f : A → Action B) (w : World) {b : B} {w' : World}
      → (lift r >>= f) w ≡ (ok b, w')
      → (a : A) × (r ≡ ok a) × (f a w ≡ (ok b, w'))
  unfolding ◌>>=◌
  continue-eq-ok (ok a) f w h = (a, refl, h)
  continue-eq-ok (err x) f w h = cc (ap (λ (p : Result B × World). p.0) h)

  pub bind-eq-ok :
      (m : Action A) (f : A → Action B) (w : World) {b : B} {w' : World}
      → (m >>= f) w ≡ (ok b, w')
      → (a : A) × (w₁ : World) × (m w ≡ (ok a, w₁)) × (f a w₁ ≡ (ok b, w'))
  unfolding ◌>>=◌
  bind-eq-ok m f w h =
      let (r, w₁) = m w in
      let (a, is_ok, rest) = continue-eq-ok r f w₁ h in (a, w₁, (λ i. (is_ok i, w₁)), rest)

module _ {ℓ} {A : Type ℓ} where
  pub wrap-eq-ok :
      (f : Error → Error) (m : Action A) (w : World) {a : A} {w' : World}
      → wrap f m w ≡ (ok a, w')
      → m w ≡ (ok a, w')
  unfolding wrap
  wrap-eq-ok f m w h = ground arith

  pub attempt-eq-ok :
      (m : Action A) (w : World) {r : Result A} {w' : World}
      → attempt m w ≡ (ok r, w')
      → m w ≡ (r, w')
  unfolding attempt
  attempt-eq-ok m w h = ground arith

  pub throw-ne-ok :
      (x : Error) (w : World) {a : A} {w' : World} → throw {A = A} x w ≡ (ok a, w') → ⊥
  unfolding throw
  throw-ne-ok x w h = cc (ap (λ (p : Result A × World). p.0) h)

pub pure-eq-ok {ℓ} :
    {A : Type ℓ} (a : A) (w : World) {b : A} {w' : World}
    → pure a w ≡ (ok b, w')
    → (a ≡ b) × (w ≡ w')
unfolding pure
pure-eq-ok a w h = ground arith

pub lift-eq-ok {ℓ} :
    {A : Type ℓ} (r : Result A) (w : World) {a : A} {w' : World}
    → lift r w ≡ (ok a, w')
    → (r ≡ ok a) × (w ≡ w')
unfolding lift
lift-eq-ok r w h = ground arith

pub or_fail-eq-ok {ℓ} :
    {A : Type ℓ} (o : Option A) (x : Error) (w : World) {a : A} {w' : World}
    → or_fail o x w ≡ (ok a, w')
    → (o ≡ some a) × (w ≡ w')
unfolding or_fail
or_fail-eq-ok o x w h = ground arith

pub outside-eq-ok :
    {A : Type 0} (e : Env) (f : ℕ → Option A) (w : World) {a : A} {w' : World}
    → outside e f w ≡ (ok a, w')
    → f w.calls ≡ some a
unfolding outside
outside-eq-ok e f w h = (or_fail-eq-ok (f w.calls) internal _ h).0

pub clock-eq-ok :
    (e : Env) (w : World) {now : Time} {w' : World}
    → clock e w ≡ (ok now, w')
    → (e.now w.calls ≡ now) × (record w { calls = suc w.calls } ≡ w')
unfolding clock
clock-eq-ok e w h = ground arith

-- A guard that passes changes nothing.
pub guard-eq-ok :
    (b : Bool) (x : Error) (w : World) {w' : World}
    → guard b x w ≡ (ok tt, w')
    → (b ≡ true) × (w ≡ w')
unfolding pure throw
guard-eq-ok b x w h = ground arith

pub statement-eq-ok :
    {A : Type 0} (e : Env) (f : Db → A × Db) (w : World) {a : A} {w' : World}
    → statement e f w ≡ (ok a, w')
    → let seen = e.others w.calls w.db in
      ((f seen).0 ≡ a) × ((f seen).1 ≡ w'.db) × (w'.calls ≡ suc w.calls)
unfolding statement
statement-eq-ok e f w h = ground arith

-- The branch that ran.
pub if-eq-ok {ℓ} :
    {A : Type ℓ} (b : Bool) (m n : Action A) (w : World) {a : A} {w' : World}
    → (if b then m else n) w ≡ (ok a, w')
    → (b ≡ true) × (m w ≡ (ok a, w')) ⊎ (b ≡ false) × (n w ≡ (ok a, w'))
if-eq-ok true m n w h = inl (refl, h)
if-eq-ok false m n w h = inr (refl, h)
