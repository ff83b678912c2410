-- ===== src/Clients/Uses.antt =====
-- How often `Register` succeeds with one initial access token.
use shieldgate.Base.{ℕ, ◌+◌, ◌≤◌, ◌≡◌, refl, subst, List, [], ◌∷◌, Text, arith}
use shieldgate.Model.{Uuid, Result, ok, err, ClientMetadata, ClientRegistrationResponse}
use shieldgate.Effect.{Env, World, wrap}
use shieldgate.Effect.Keeps.{Keeps, Rely, kept, keeps_rules, Keeps-bind, Keeps-wrap}
use shieldgate.Effect.Inversion.{bind-eq-ok, wrap-eq-ok}
use shieldgate.Repo.Keeps.{Keeps-find}
use shieldgate.Repo.InitialAccess.{get_initial_token}
use shieldgate.Clients.MetadataKeeps.{validate-Keeps}
use shieldgate.Clients.Registration.{hide_token, admit, register}
use shieldgate.Clients.UsesLeft.{
  uses_left, HasAtMost, consume-Keeps, consume-eq-ok, register_client-Keeps,
}

module _ (e : Env) (tenant : Uuid) (token : Text)
    (rely : (k : ℕ) → Rely e (HasAtMost tenant (e.sha256_base64 token) k)) where
  abbrev hash : Text
  hash = e.sha256_base64 token

  find-Keeps :
      (k : ℕ) → Keeps (HasAtMost tenant hash k) (wrap hide_token (get_initial_token e tenant hash))
  unfolding get_initial_token
  find-Keeps k = Keeps-wrap _ _ (Keeps-find e (rely k) _ _ _)

  admit-Keeps :
      (k : ℕ) (meta : ClientMetadata) → Keeps (HasAtMost tenant hash k) (admit e tenant token meta)
  unfolding admit
  admit-Keeps k meta = Keeps-bind _ _ (search keeps_rules) (λ _.
      Keeps-bind _ _ (find-Keeps k)
        (λ _. Keeps-bind _ _ (validate-Keeps e meta) (λ _. search keeps_rules)))

  register-Keeps :
      (k : ℕ) (meta : ClientMetadata)
      → Keeps (HasAtMost tenant hash k) (register e tenant token meta)
  unfolding register
  register-Keeps k meta = Keeps-bind _ _ (admit-Keeps k meta) (λ _.
      Keeps-bind _ _ (Keeps-wrap _ _ (consume-Keeps tenant hash e rely k))
        (λ _. register_client-Keeps tenant hash e rely k _ _))

  -- A registration that succeeds takes one of the uses that are left.
  register-eq-ok :
      (k : ℕ) (meta : ClientMetadata) (w : World) {answer : ClientRegistrationResponse} {w' : World}
      → HasAtMost tenant hash k w.db
      → register e tenant token meta w ≡ (ok answer, w')
      → uses_left tenant hash w'.db.initial_access_tokens + 1 ≤ k
  unfolding register
  register-eq-ok k meta w few h =
      let ((md, scopes), w₁, admitted, h₁) = bind-eq-ok _ _ w h in
      let (_, w₂, taken, h₂) = bind-eq-ok _ _ w₁ h₁ in
      let small = kept {P = HasAtMost tenant hash k} _ w (admit-Keeps k meta) few admitted in
      let fewer = consume-eq-ok tenant hash e rely k w₁ small (wrap-eq-ok _ _ w₁ taken) in
      let left = uses_left tenant hash w₂.db.initial_access_tokens in
      let last : uses_left tenant hash _ ≤ left =
        kept {P = HasAtMost tenant hash left} _ w₂
          (register_client-Keeps tenant hash e rely left md scopes) (omega arith) h₂ in
      omega arith

  abbrev counted : Result ClientRegistrationResponse → ℕ
  counted (ok _) = 1
  counted (err _) = 0

  -- Registrations with the token, one after the other: how many succeeded.
  abbrev pub registered : List ClientMetadata → World → ℕ × World
  registered [] w = (0, w)
  registered (meta ∷ rest) w =
      let (answer, w₁) = register e tenant token meta w in
      let (n, w₂) = registered rest w₁ in (counted answer + n, w₂)

  register-counted :
      (k : ℕ) (meta : ClientMetadata) (w : World)
      → HasAtMost tenant hash k w.db
      → (answer : Result ClientRegistrationResponse) (w' : World)
      → register e tenant token meta w ≡ (answer, w')
      → uses_left tenant hash w'.db.initial_access_tokens + counted answer ≤ k
  register-counted k meta w few (ok answer) w' run = register-eq-ok k meta w few run
  register-counted k meta w few (err x) w' run =
      let still : uses_left tenant hash w'.db.initial_access_tokens ≤ k =
        subst (λ (r : Result ClientRegistrationResponse × World). HasAtMost tenant hash k r.1.db)
          run ((register-Keeps k meta).at w few) in
      omega arith

  registered-HasAtMost :
      (k : ℕ) (metas : List ClientMetadata) (w : World)
      → HasAtMost tenant hash k w.db
      → (registered metas w).0 ≤ k
  registered-HasAtMost k [] w few = omega arith
  registered-HasAtMost k (meta ∷ rest) w few =
      let (answer, w₁) = register e tenant token meta w in
      let taken = register-counted k meta w few answer w₁ refl in
      let others =
        registered-HasAtMost (uses_left tenant hash w₁.db.initial_access_tokens) rest w₁
          (omega arith) in
      omega arith

  -- Of any number of registrations with an initial access token, one after the other, at most as
  -- many succeed as the token had uses left before the first, as long as other requests do not add
  -- uses to it.
  pub registered-bounded :
      (metas : List ClientMetadata) (w : World)
      → (registered metas w).0 ≤ uses_left tenant hash w.db.initial_access_tokens
  registered-bounded metas w =
      registered-HasAtMost (uses_left tenant hash w.db.initial_access_tokens) metas w (omega arith)
