-- ===== src/Tests/Logins.antt =====
-- Sessions and consent on the example tables.
use shieldgate.Base.{
  ◌≡◌, refl, true, codes, text_eq, fields, fields_from, select_rows, update_rows, join_space,
}
use shieldgate.Model.{ok, is_expired}
use shieldgate.Scope.{parse_scope, contains, add_scopes, union_scopes}
use shieldgate.Effect.{
  World, pure, throw, or_fail, attempt, wrap, ◌>>=◌, clock, fresh_uuid, statement,
}
use shieldgate.Repo.Statements.{find, write}
use shieldgate.Repo.Session.{get_by_token_hash, get_consent, upsert_consent, upsert_row}
use shieldgate.Sessions.Service.{
  live_session, get_session, has_consent, store_consent, widen_consent, grant_consent,
}
use shieldgate.Sessions.Live.{Live, get_session-Live}
use shieldgate.Sessions.Consents.{grant_consent_has}
use shieldgate.Tests.Fixture.{server, world, session_row}

found :
    get_session server 65 (codes "session") world
    ≡ (ok session_row, (get_session server 65 (codes "session") world).1)
unfolding get_session live_session get_by_token_hash find is_expired text_eq pure throw or_fail
    attempt wrap ◌>>=◌ clock statement
found = refl

current_example : Live server 65 (codes "session") world session_row
current_example = get_session-Live server 65 (codes "session") world found

abbrev after : World
after = (grant_consent server 65 67 66 (codes "email openid") world).1

granted : grant_consent server 65 67 66 (codes "email openid") world ≡ (ok tt, after)
unfolding grant_consent widen_consent store_consent get_consent upsert_consent upsert_row find write
    parse_scope fields fields_from join_space union_scopes add_scopes contains text_eq select_rows
    update_rows pure throw or_fail attempt wrap ◌>>=◌ clock fresh_uuid statement
granted = refl

consent_example : (has_consent server 65 67 66 (codes "email openid") after).0 ≡ ok true
consent_example =
    grant_consent_has server 65 67 66 (codes "email openid") world (record { at = λ n d h. h }) refl
      granted
