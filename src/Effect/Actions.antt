-- ===== src/Effect/Actions.antt =====
-- Actions: a request's code, as a function of the world that returns a value or an error.
use shieldgate.Base.{ℕ, suc, Bool, Option, none, some, ◌∷◌, Text, if◌then◌else◌}
use shieldgate.Model.{Error, internal, Result, ok, err, Uuid, Time, TokenEvent}
use shieldgate.Effect.Outside.{Db, Env, World}

abbrev pub Action {ℓ} : Type ℓ → Type ℓ
Action A = World → Result A × World

module _ {ℓ} {A : Type ℓ} where
  unfoldable pub pure : A → Action A
  pure a w = (ok a, w)

  unfoldable pub throw : Error → Action A
  throw x w = (err x, w)

  -- The value, or the error that the caller returns for nil.
  unfoldable pub or_fail : Option A → Error → Action A
  or_fail none x w = (err x, w)
  or_fail (some a) x w = (ok a, w)

  -- A result that was computed before.
  unfoldable pub lift : Result A → Action A
  lift r w = (r, w)

  -- The result with its error, for code that goes on after an error.
  unfoldable pub attempt : Action A → Action (Result A)
  attempt m w = let (r, w') = m w in (ok r, w')

  abbrev relabel : (Error → Error) → Result A → Result A
  relabel f (ok a) = ok a
  relabel f (err x) = err (f x)

  -- Another error in place of the action's own, such as `fmt.Errorf("…: %w", err)`.
  unfoldable pub wrap : (Error → Error) → Action A → Action A
  wrap f m w = let (r, w') = m w in (relabel f r, w')

module _ {ℓ κ} {A : Type ℓ} {B : Type κ} where
  abbrev continue : Result A → (A → Action B) → Action B
  continue (ok a) f w = f a w
  continue (err x) f w = (err x, w)

  infixl 5 ◌>>=◌ ◌>>◌
  unfoldable pub ◌>>=◌ : Action A → (A → Action B) → Action B
  unfolding pure throw or_fail lift attempt wrap
  ◌>>=◌ m f w = let (r, w') = m w in continue r f w'

  abbrev pub ◌>>◌ : Action A → Action B → Action B
  m >> k = m >>= λ _. k

-- A check that returns early with an error.
abbrev pub guard : Bool → Error → Action (Unit {0})
guard b x = if b then pure tt else throw x

module _ (e : Env) where
  abbrev tick : World → World
  tick w = record w { calls = suc w.calls }

  unfoldable pub clock : Action Time
  clock w = (ok (e.now w.calls), tick w)

  unfoldable pub fresh_uuid : Action Uuid
  fresh_uuid w = (ok (e.new_uuid w.calls), tick w)

  -- A call that may fail.
  unfoldable pub outside : {A : Type 0} → (ℕ → Option A) → Action A
  unfolding or_fail
  outside f w = or_fail (f w.calls) internal (tick w)

  -- `randomToken(length)`: the text, or the failure of the random source.
  unfoldable pub random_token : ℕ → Action Text
  random_token n = outside (λ k. e.random_token k n)

  -- One statement: other requests' writes come first, and a failed statement changes nothing.
  unfoldable pub statement : {A : Type 0} → (Db → A × Db) → Action A
  statement f w =
      let seen = e.others w.calls w.db in
      let (a, after) = f seen in
      if e.fails w.calls
      then (err internal, record w { db = seen; calls = suc w.calls })
      else (ok a, record w { db = after; calls = suc w.calls })

  -- `s.emit`: nothing without a sink.
  unfoldable pub emit : TokenEvent → Action (Unit {0})
  emit ev w = (ok tt, record w { events = if e.config.has_events then ev ∷ w.events else w.events })
