-- ===== src/Repo/Session.antt =====
-- internal/repo/gorm/session.go: sessions and consents.
use shieldgate.Base.{Bool, List, Text, text_eq, ◌&&◌, ◌==◌, ltb, is_cons, if◌then◌else◌}
use shieldgate.Model.{Time, Uuid, session_not_found, resource_not_found, Session, Consent}
use shieldgate.Effect.{Env, Action, clock, ◌>>=◌}
use shieldgate.Repo.Statements.{find, write, created_time}

-- `tenant_id = ? AND token_hash = ?`.
abbrev pub has_hash : Uuid → Text → Session → Bool
has_hash tenant hash s = s.tenant_id == tenant && text_eq s.token_hash hash

-- `tenant_id = ? AND user_id = ? AND client_id = ?`.
abbrev pub is_consent : Uuid → Uuid → Uuid → Consent → Bool
is_consent tenant user client c =
    c.tenant_id == tenant && c.user_id == user && c.client_id == client

abbrev pub set_scope : Consent → Consent → Consent
set_scope c r = record r { scope = c.scope; updated_at = c.updated_at }

-- `ON CONFLICT (tenant_id, user_id, client_id) DO UPDATE`.
unfoldable pub upsert_row : Env → Time → Consent → List Consent → List Consent
upsert_row e now c rows =
    let (after, changed) =
      e.database.update (is_consent c.tenant_id c.user_id c.client_id) (set_scope c) rows in
    if is_cons changed
    then after
    else e.database.insert (record c { created_at = created_time now c.created_at }) after

module _ (e : Env) where
  unfoldable pub create_session_row : Session → Action (Unit {0})
  create_session_row s = do
    now ← clock e
    write e λ d. record d {
      sessions =
          e.database.insert (record s { created_at = created_time now s.created_at }) d.sessions;
    }

  unfoldable pub get_by_token_hash : Uuid → Text → Action Session
  get_by_token_hash tenant hash = find e (λ d. d.sessions) (has_hash tenant hash) session_not_found

  unfoldable pub delete_by_token_hash : Uuid → Text → Action (Unit {0})
  delete_by_token_hash tenant hash =
      write e λ d. record d { sessions = e.database.delete (has_hash tenant hash) d.sessions }

  unfoldable pub delete_sessions_of : Uuid → Uuid → Action (Unit {0})
  delete_sessions_of tenant user = write e λ d. record d {
    sessions = e.database.delete (λ s. s.tenant_id == tenant && s.user_id == user) d.sessions;
  }

  unfoldable pub delete_expired_sessions : Action (Unit {0})
  delete_expired_sessions = do
    now ← clock e
    write e λ d. record d { sessions = e.database.delete (λ s. ltb s.expires_at now) d.sessions }

  unfoldable pub get_consent : Uuid → Uuid → Uuid → Action Consent
  get_consent tenant user client =
      find e (λ d. d.consents) (is_consent tenant user client) resource_not_found

  unfoldable pub upsert_consent : Consent → Action (Unit {0})
  unfolding upsert_row
  upsert_consent c = do
    now ← clock e
    write e λ d. record d { consents = upsert_row e now c d.consents }

  unfoldable pub delete_consent : Uuid → Uuid → Uuid → Action (Unit {0})
  delete_consent tenant user client =
      write e
        λ d. record d { consents = e.database.delete (is_consent tenant user client) d.consents }
