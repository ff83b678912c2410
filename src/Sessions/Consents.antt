-- ===== src/Sessions/Consents.antt =====
-- Granting consent, and asking for it afterwards.
use shieldgate.Base.{
  suc, ◌≡◌, refl, sym, ap, subst, true, false, ◌⊎◌, inl, inr, Option, none, some, List, [], ◌∷◌,
  map, Text, arith, All, Any, All-Any, Any-All, is_cons, join_space, select_rows, update_rows,
  Bool-cases,
}
use shieldgate.Model.{Uuid, Time, Result, ok, err, resource_not_found, Consent}
use shieldgate.Scope.{parse_scope, union_scopes}
use shieldgate.Scope.Subset.{Has, Within, Within-refl, scope_is_subset_iff}
use shieldgate.Scope.Words.{IsWord, fields-IsWord, fields-join_space}
use shieldgate.Scope.Union.{union_scopes_lem}
use shieldgate.Effect.{Selects, Db, Env, World, statement, wrap, or_fail, attempt, pure, ◌>>=◌}
use shieldgate.Effect.Keeps.{Rely}
use shieldgate.Effect.Inversion.{bind-eq-ok, wrap-eq-ok, statement-eq-ok, throw-ne-ok}
use shieldgate.Repo.Statements.{find, write, created_time}
use shieldgate.Repo.Outcomes.{seen}
use shieldgate.Repo.Session.{is_consent, set_scope, upsert_row, get_consent, upsert_consent}
use shieldgate.Sessions.Service.{
  is_absent, covered_by, has_consent, store_consent, widen_consent, grant_consent,
}

-- There is a consent of the user for the client, and every one has all of these words.
abbrev pub Covers : Uuid → Uuid → Uuid → List Text → Db → Type 0
Covers tenant user client ws d =
    Any (λ c. is_consent tenant user client c ≡ true) d.consents
    × All (λ c. (is_consent tenant user client c ≡ false) ⊎ Within ws (parse_scope c.scope))
        d.consents

All-Has : (P : Text → Type 0) (xs : List Text) → ((t : Text) → Has t xs → P t) → All P xs
All-Has P [] h = tt
All-Has P (x ∷ xs) h = (h x (inl refl), All-Has P xs (λ t k. h t (inr k)))

Has-All : (P : Text → Type 0) (xs : List Text) (t : Text) → All P xs → Has t xs → P t
Has-All P [] t h k = absurd k
Has-All P (x ∷ xs) t h (inl same) = subst P same h.0
Has-All P (x ∷ xs) t h (inr later) = Has-All P xs t h.1 later

parse_scope-words : (ws : List Text) → All IsWord ws → parse_scope (join_space ws) ≡ ws
unfolding parse_scope
parse_scope-words ws h = fields-join_space ws h

parse_scope-IsWord : (s : Text) → All IsWord (parse_scope s)
unfolding parse_scope
parse_scope-IsWord s = fields-IsWord s

-- The union with a requested scope has its words, and only words.
union-words :
    (old scope : Text)
    → All IsWord (union_scopes (parse_scope old) (parse_scope scope))
      × Within (parse_scope scope) (union_scopes (parse_scope old) (parse_scope scope))
union-words old scope =
    let a = parse_scope old in
    let b = parse_scope scope in
    let members = (union_scopes_lem a b).1 in
    (
      All-Has IsWord (union_scopes a b) (λ t h. elim ((members t).0 h) [
        | inl x ↦ Has-All IsWord a t (parse_scope-IsWord old) x
        | inr y ↦ Has-All IsWord b t (parse_scope-IsWord scope) y
      ]),
      All-Has (λ t. Has t (union_scopes a b)) b (λ t h. (members t).1 (inr h)),
    )

module _ (e : Env) (tenant user client : Uuid) where
  updated-All :
      (ws : List Text) (c : Consent) (rows : List Consent)
      → Within ws (parse_scope c.scope)
      → All
          (λ r. (is_consent tenant user client r ≡ false) ⊎ Within ws (parse_scope r.scope))
          (update_rows (is_consent tenant user client) (set_scope c) rows)
  unfolding update_rows
  updated-All ws c [] within = tt
  updated-All ws c (r ∷ rows) within = elim (Bool-cases (is_consent tenant user client r)) [
    | inl hit ↦ rw hit (inr within, updated-All ws c rows within)
    | inr miss ↦ rw miss (inl miss, updated-All ws c rows within)
  ]

  updated-Any :
      (c : Consent) (rows : List Consent)
      → is_cons (map (set_scope c) (select_rows (is_consent tenant user client) rows)) ≡ true
      → Any
          (λ r. is_consent tenant user client r ≡ true)
          (update_rows (is_consent tenant user client) (set_scope c) rows)
  unfolding update_rows select_rows
  updated-Any c [] h = absurd (cc h)
  updated-Any c (r ∷ rows) h = elim (Bool-cases (is_consent tenant user client r)) [
    | inl hit ↦ rw hit (inl hit)
    | inr miss ↦ rw miss (inr (updated-Any c rows (rw miss at h)))
  ]

  upsert_row-Covers :
      (ws : List Text) (now : Time) (c : Consent) (d : Db)
      → (c.tenant_id ≡ tenant) × (c.user_id ≡ user) × (c.client_id ≡ client)
      → Within ws (parse_scope c.scope)
      → Covers tenant user client ws (record d { consents = upsert_row e now c d.consents })
  unfolding upsert_row
  upsert_row-Covers ws now c d (t, u, k) within =
      let p = is_consent tenant user client in
      let rows = d.consents in
      let row : Consent = record c {
        tenant_id = tenant;
        user_id = user;
        client_id = client;
        created_at = created_time now c.created_at;
      } in
      rw (t, u, k, e.database.update_lem p (set_scope c) rows)
        (elim (Bool-cases (is_cons (map (set_scope c) (select_rows p rows)))) [
          | inl found ↦ rw found (updated-Any c rows found, updated-All ws c rows within)
          | inr missing ↦
              rw (missing, e.database.insert_lem row (update_rows p (set_scope c) rows))
                (inl (ground arith), (inr within, updated-All ws c rows within))
        ])

  store-Covers :
      (ws granted : List Text) (w : World) {w' : World}
      → All IsWord granted
      → Within ws granted
      → store_consent e tenant user client granted w ≡ (ok tt, w')
      → Covers tenant user client ws w'.db
  unfolding store_consent upsert_consent write
  store-Covers ws granted w words within h =
      let (id, w₁, _, h₁) = bind-eq-ok _ _ w h in
      let (updated, w₂, _, h₂) = bind-eq-ok _ _ w₁ h₁ in
      let (now, w₃, _, h₃) = bind-eq-ok _ _ w₂ h₂ in
      let row : Consent = record {
        id = id;
        tenant_id = tenant;
        user_id = user;
        client_id = client;
        scope = join_space granted;
        created_at = 0;
        updated_at = updated;
      } in
      let (_, db_eq, _) = statement-eq-ok e _ w₃ (wrap-eq-ok _ _ w₃ h₃) in
      subst (Covers tenant user client ws) db_eq (
        upsert_row-Covers ws now row (seen e w₃) (refl, refl, refl)
          (subst (λ xs. Within ws xs) (sym (parse_scope-words granted words)) within))

  widen-Covers :
      (scope : Text) (r : Result Consent) (w : World) {w' : World}
      → widen_consent e tenant user client scope r w ≡ (ok tt, w')
      → Covers tenant user client (parse_scope scope) w'.db
  unfolding widen_consent
  widen-Covers scope (ok c) w h =
      let (words, within) = union-words c.scope scope in
      store-Covers (parse_scope scope) (union_scopes (parse_scope c.scope) (parse_scope scope)) w
        words within h
  widen-Covers scope (err x) w h = elim (Bool-cases (is_absent x)) [
    | inl absent ↦
        store-Covers (parse_scope scope) (parse_scope scope) w (parse_scope-IsWord scope)
          (Within-refl (parse_scope scope)) (rw absent at h)
    | inr failed ↦ absurd (throw-ne-ok _ w (rw failed at h))
  ]

  -- A query that runs where a row matches finds one.
  find_found :
      (w : World)
      → e.fails w.calls ≡ false
      → Any (λ c. is_consent tenant user client c ≡ true) (seen e w).consents
      → (c : Consent) × ((get_consent e tenant user client w).0 ≡ ok c)
        × (is_consent tenant user client c ≡ true)
        × Any (λ r. r ≡ c) (seen e w).consents
  unfolding get_consent find statement wrap or_fail ◌>>=◌
  find_found w runs there =
      let p = is_consent tenant user client in
      rw runs (
        selected (e.database.first p (seen e w).consents)
          (e.database.first_lem p (seen e w).consents))
    where
      selected :
          (o : Option Consent)
          → Selects (is_consent tenant user client) (seen e w).consents o
          → (c : Consent) × ((or_fail o resource_not_found
                (record w { db = seen e w; calls = suc w.calls })).0
              ≡ ok c)
            × (is_consent tenant user client c ≡ true)
            × Any (λ r. r ≡ c) (seen e w).consents
      selected none absent =
          let (r, missed, hit) = All-Any _ _ (seen e w).consents absent there in
          absurd (cc (missed, hit))
      selected (some c) (hit, stored) = (c, refl, hit, stored)

  granted-Covers :
      (scope : Text) (w : World) {w' : World}
      → grant_consent e tenant user client scope w ≡ (ok tt, w')
      → Covers tenant user client (parse_scope scope) w'.db
  unfolding grant_consent
  granted-Covers scope w h = let (r, w₁, _, k) = bind-eq-ok _ _ w h in widen-Covers scope r w₁ k

  -- After a scope was granted, the user's consent for the client covers it: `HasConsent` answers
  -- true for that scope, where its query does not fail and other requests keep a consent with these
  -- words in place.
  pub grant_consent_has :
      (scope : Text) (w : World) {w' : World}
      → Rely e (Covers tenant user client (parse_scope scope))
      → e.fails w'.calls ≡ false
      → grant_consent e tenant user client scope w ≡ (ok tt, w')
      → (has_consent e tenant user client scope w').0 ≡ ok true
  unfolding has_consent covered_by ◌>>=◌ attempt pure
  grant_consent_has scope w {w'} rely runs h =
      let (there, cover) = rely.at w'.calls w'.db (granted-Covers scope w h) in
      let (c, found, hit, stored) = find_found w' runs there in
      rw found (elim (Any-All _ _ c cover stored) [
        | inl miss ↦ absurd (cc (hit, miss))
        | inr within ↦ ap ok ((scope_is_subset_iff scope c.scope).1 within)
      ])
