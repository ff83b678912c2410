-- ===== src/Repo/InitialAccess.antt =====
-- internal/repo/gorm/initial_access_token.go, but for the listing.
use shieldgate.Base.{
  ◌+◌, Bool, ◌&&◌, ◌==◌, ltb, is_some, is_cons, not, some, List, [], ◌∷◌, Text, text_eq,
}
use shieldgate.Model.{Uuid, Time, initial_access_token_not_found, InitialAccessToken}
use shieldgate.Effect.{Env, Db, Action, clock, guard, pure, throw, ◌>>=◌}
use shieldgate.Repo.Statements.{find, write, change, created_time}

abbrev pub has_initial_hash : Uuid → Text → InitialAccessToken → Bool
has_initial_hash tenant hash t = t.tenant_id == tenant && text_eq t.token_hash hash

-- The condition of the statement in `Consume`.
abbrev pub is_usable : Uuid → Text → Time → InitialAccessToken → Bool
is_usable tenant hash now t =
    has_initial_hash tenant hash t
    && not (is_some t.revoked_at)
    && ltb now t.expires_at
    && ltb t.uses t.max_uses

abbrev pub count_use : InitialAccessToken → InitialAccessToken
count_use t = record t { uses = t.uses + 1 }

abbrev pub put_initial_tokens : List InitialAccessToken → Db → Db
put_initial_tokens rows d = record d { initial_access_tokens = rows }

abbrev pub first_returned : List InitialAccessToken → Action InitialAccessToken
first_returned [] = throw initial_access_token_not_found
first_returned (t ∷ rest) = pure t

module _ (e : Env) where
  unfoldable pub create_initial_token : InitialAccessToken → Action (Unit {0})
  create_initial_token t = do
    now ← clock e
    write e λ d. record d {
      initial_access_tokens =
          e.database.insert (record t { created_at = created_time now t.created_at })
            d.initial_access_tokens;
    }

  unfoldable pub get_initial_token : Uuid → Text → Action InitialAccessToken
  get_initial_token tenant hash =
      find e (λ d. d.initial_access_tokens) (has_initial_hash tenant hash)
        initial_access_token_not_found

  -- `Consume`.
  unfoldable pub consume_initial_token : Uuid → Text → Action InitialAccessToken
  consume_initial_token tenant hash = do
    now ← clock e
    rows ←
        change e (λ d. d.initial_access_tokens) put_initial_tokens (is_usable tenant hash now)
          count_use
    first_returned rows

  -- `Revoke`.
  unfoldable pub revoke_initial_token : Uuid → Uuid → Action (Unit {0})
  revoke_initial_token tenant id = do
    now ← clock e
    rows ←
        change e (λ d. d.initial_access_tokens) put_initial_tokens
          (λ t. t.tenant_id == tenant && t.id == id && not (is_some t.revoked_at))
          (λ t. record t { revoked_at = some now })
    guard (is_cons rows) initial_access_token_not_found
