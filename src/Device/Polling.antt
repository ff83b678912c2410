-- ===== src/Device/Polling.antt =====
-- What a poll writes to the row of its device code.
use shieldgate.Base.{
  ◌≡◌, refl, sym, ap, subst, ◌∙◌, false, ◌==◌, ◌⊎◌, inl, inr, List, [], ◌∷◌, map, some, All,
  is_cons, suc, select_rows, update_rows, Bool-cases,
}
use shieldgate.Model.{
  Uuid, Client, DeviceCode, DeviceCodeStatus, pending, approved, denied, other_status,
}
use shieldgate.Effect.{Env, Db, World, statement, clock, attempt, wrap, throw, ◌>>=◌}
use shieldgate.Repo.Statements.{write}
use shieldgate.Repo.DeviceCode
use shieldgate.Repo.DeviceCode.{save}
use shieldgate.Device.Flow.{polled_within, by_status, poll}

-- Every row with this identifier is this one.
abbrev pub IsOnly : DeviceCode → List DeviceCode → Type 0
IsOnly c rows = All (λ r. ((r.id == c.id) ≡ false) ⊎ (r ≡ c)) rows

update-IsOnly :
    (c : DeviceCode) (rows : List DeviceCode)
    → IsOnly c (update_rows (λ r. r.id == c.id) (λ _. c) rows)
unfolding update_rows
update-IsOnly c [] = tt
update-IsOnly c (r ∷ rows) = elim (Bool-cases (r.id == c.id)) [
  | inl same ↦ rw same (inr refl, update-IsOnly c rows)
  | inr other ↦ rw other (inl other, update-IsOnly c rows)
]

-- `Save` leaves no other row with the identifier.
pub save-IsOnly : (e : Env) (c : DeviceCode) (rows : List DeviceCode) → IsOnly c (save e c rows)
unfolding save
save-IsOnly e c rows =
    let p = λ (r : DeviceCode). r.id == c.id in
    rw (e.database.update_lem p (λ _. c) rows)
      (elim (Bool-cases (is_cons (map (λ (_ : DeviceCode). c) (select_rows p rows)))) [
        | inl found ↦ rw found (update-IsOnly c rows)
        | inr missing ↦
            rw (missing, e.database.insert_lem c (update_rows p (λ _. c) rows))
              (inr refl, update-IsOnly c rows)
      ])

-- Every row with this identifier is pending.
abbrev pub StaysPending : Uuid → Db → Type 0
StaysPending id d = All (λ c. ((c.id == id) ≡ false) ⊎ (c.status ≡ pending)) d.device_codes

only-pending :
    (c : DeviceCode) (rows : List DeviceCode)
    → c.status ≡ pending
    → IsOnly c rows
    → All (λ r. ((r.id == c.id) ≡ false) ⊎ (r.status ≡ pending)) rows
only-pending c [] s h = tt
only-pending c (r ∷ rows) s (inl other, h) = (inl other, only-pending c rows s h)
only-pending c (r ∷ rows) s (inr same, h) =
    (inr (ap (λ (x : DeviceCode). x.status) same ∙ s), only-pending c rows s h)

module _ (e : Env) (tenant : Uuid) (client : Client) where
  by_status-pending :
      (dc : DeviceCode) (status : DeviceCodeStatus) (w : World)
      → status ≡ pending
      → (by_status e tenant client dc status w).1 ≡ w
  unfolding by_status throw
  by_status-pending dc pending w s = refl
  by_status-pending dc approved w s = absurd (cc s)
  by_status-pending dc denied w s = absurd (cc s)
  by_status-pending dc (other_status t) w s = refl

  -- A poll that read a code as pending, and whose write does not fail, leaves every row with the
  -- code's identifier pending, even if another request approved or denied it after the read.
  pub poll-StaysPending :
      (dc : DeviceCode) (w : World)
      → dc.status ≡ pending
      → e.fails (suc w.calls) ≡ false
      → StaysPending dc.id (poll e tenant client dc w).1.db
  unfolding poll DeviceCode.update write statement clock attempt wrap throw ◌>>=◌
  poll-StaysPending dc w s runs =
      let c : DeviceCode = record dc { last_polled_at = some (e.now w.calls) } in
      let met = e.others (suc w.calls) w.db in
      let after : World = record w {
        db = record met { device_codes = save e c met.device_codes };
        calls = suc (suc w.calls);
      } in
      let saved = only-pending c (save e c met.device_codes) s (save-IsOnly e c met.device_codes) in
      elim (Bool-cases (polled_within dc.last_polled_at dc.interval (e.now w.calls))) [
        | inl fast ↦ rw (runs, fast) saved
        | inr slow ↦
            rw (runs, slow)
              (subst (λ (v : World). StaysPending dc.id v.db)
                (sym (by_status-pending dc dc.status after s)) saved)
      ]
