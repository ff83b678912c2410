-- ===== src/Effect/Keeps.antt =====
-- Properties of the tables that an action keeps, whatever it returns and whatever other requests do,
-- as long as they keep the property too.
use shieldgate.Base.{
  ℕ, ◌≡◌, subst, Bool, true, false, Option, none, some, if◌then◌else◌, Bool-cases, inl, inr,
}
use shieldgate.Model.{internal, Error, Result, ok, err, TokenEvent}
use shieldgate.Effect.Outside.{Db, Env, World}
use shieldgate.Effect.Actions.{
  Action, pure, throw, or_fail, lift, attempt, wrap, ◌>>=◌, clock, fresh_uuid, random_token,
  outside, statement, emit,
}

pub record Keeps {ℓ} {A : Type ℓ} (P : Db → Type 0) (m : Action A) : Type ℓ where
  pub at : (w : World) → P w.db → P (m w).1.db

-- Other requests keep the property.
pub record Rely (e : Env) (P : Db → Type 0) : Type 0 where
  pub at : (n : ℕ) (d : Db) → P d → P (e.others n d)

module _ {ℓ} {A : Type ℓ} {P : Db → Type 0} where
  pub Keeps-pure : (a : A) → Keeps P (pure a)
  unfolding pure
  Keeps-pure a = record { at = λ w h. h }

  pub Keeps-throw : (x : Error) → Keeps P (throw {A = A} x)
  unfolding throw
  Keeps-throw x = record { at = λ w h. h }

  pub Keeps-lift : (r : Result A) → Keeps P (lift r)
  unfolding lift
  Keeps-lift r = record { at = λ w h. h }

  pub Keeps-or_fail : (o : Option A) (x : Error) → Keeps P (or_fail o x)
  unfolding or_fail
  Keeps-or_fail none x = record { at = λ w h. h }
  Keeps-or_fail (some a) x = record { at = λ w h. h }

  pub Keeps-attempt : (m : Action A) → Keeps P m → Keeps P (attempt m)
  unfolding attempt
  Keeps-attempt m k = record { at = λ w h. k.at w h }

  pub Keeps-wrap : (f : Error → Error) (m : Action A) → Keeps P m → Keeps P (wrap f m)
  unfolding wrap
  Keeps-wrap f m k = record { at = λ w h. k.at w h }

  pub Keeps-if : (b : Bool) (m n : Action A) → Keeps P m → Keeps P n → Keeps P (if b then m else n)
  Keeps-if true m n km kn = km
  Keeps-if false m n km kn = kn

-- What an action keeps holds after a run of it.
pub kept :
    {A : Type 0} {P : Db → Type 0} (m : Action A) (w : World) {a : A} {w' : World}
    → Keeps P m
    → P w.db
    → m w ≡ (ok a, w')
    → P w'.db
kept {A} {P} m w k h run = subst (λ (r : Result A × World). P r.1.db) run (k.at w h)

module _ {ℓ κ} {A : Type ℓ} {B : Type κ} {P : Db → Type 0} where
  continue-Keeps :
      (r : Result A) (f : A → Action B) → ((a : A) → Keeps P (f a)) → Keeps P (lift r >>= f)
  unfolding ◌>>=◌
  continue-Keeps (ok a) f k = record { at = λ w h. (k a).at w h }
  continue-Keeps (err x) f k = record { at = λ w h. h }

  pub Keeps-bind :
      (m : Action A) (f : A → Action B) → Keeps P m → ((a : A) → Keeps P (f a)) → Keeps P (m >>= f)
  unfolding ◌>>=◌
  Keeps-bind m f km kf = record {
    at = λ w h. let (r, w') = m w in (continue-Keeps r f kf).at w' (km.at w h);
  }

module _ {P : Db → Type 0} (e : Env) where
  pub Keeps-clock : Keeps P (clock e)
  unfolding clock
  Keeps-clock = record { at = λ w h. h }

  pub Keeps-fresh_uuid : Keeps P (fresh_uuid e)
  unfolding fresh_uuid
  Keeps-fresh_uuid = record { at = λ w h. h }

  pub Keeps-outside : {A : Type 0} (f : ℕ → Option A) → Keeps P (outside e f)
  unfolding outside
  Keeps-outside f = record { at = λ w h. (Keeps-or_fail {P = P} (f w.calls) internal).at _ h }

  pub Keeps-random_token : (n : ℕ) → Keeps P (random_token e n)
  unfolding random_token
  Keeps-random_token n = Keeps-outside (λ k. e.random_token k n)

  pub Keeps-emit : (ev : TokenEvent) → Keeps P (emit e ev)
  unfolding emit
  Keeps-emit ev = record { at = λ w h. h }

  -- A statement keeps what its effect on the tables keeps.
  pub Keeps-statement :
      {A : Type 0} (f : Db → A × Db)
      → Rely e P
      → ((d : Db) → P d → P (f d).1)
      → Keeps P (statement e f)
  unfolding statement
  Keeps-statement f r k = record {
    at = λ w h. elim (Bool-cases (e.fails w.calls)) [
      | inl t ↦ rw t (r.at w.calls w.db h)
      | inr t ↦ rw t (k (e.others w.calls w.db) (r.at w.calls w.db h))
    ];
  }

pub ruleset keeps_rules = (
  Keeps-pure, Keeps-throw, Keeps-lift, Keeps-or_fail, Keeps-attempt, Keeps-wrap, Keeps-if,
  Keeps-bind, Keeps-clock, Keeps-fresh_uuid, Keeps-outside, Keeps-random_token, Keeps-emit,
)
