-- ===== src/Checks/Refusals.antt =====
-- Requests that are refused.
use silence_watch.Quotas.{QuotaConfig, QuotaExceeded, assert_can_add_check}
use silence_watch.Tables.{Check}
use silence_watch.Schedule.{Cron}
use silence_watch.Checks.Creating.{create, inserted, quota_db, within_quota}
use silence_watch.Checks.Requests.{CreateCheckRequest, UpdateCheckRequest}
use silence_watch.Checks.{
  CheckUpdate, ChecksDb, ChecksError, find_by_id, next_due_or_throw, remove, removed,
  rotate_ping_key, rotated, row_updated, to_schedule, update, update_data, update_found,
}
use silence_watch.Prelude.{
  Option, Result, Text, err, nat_eq, none, ok, refl, some, text_keys, ℕ, ◌≡◌,
}

-- An answer that refuses comes with the tables and the cache as they were.
abbrev pub IsAtomic {ℓ} : {A : Type ℓ} → ChecksDb → ChecksDb → Result ChecksError A → Type 0
IsAtomic before after (ok a) = Unit
IsAtomic before after (err e) = after ≡ before

updated-IsAtomic :
    (now : ℕ) (db : ChecksDb) (c : Check) (r : Result ChecksError CheckUpdate)
    → let t = row_updated now db c r in IsAtomic db t.0 t.1
updated-IsAtomic now db c (ok columns) = tt
updated-IsAtomic now db c (err e) = refl

update_found-IsAtomic :
    (next : Cron) (now : ℕ) (input : UpdateCheckRequest) (db : ChecksDb) (o : Option Check)
    → let t = update_found next now input db o in IsAtomic db t.0 t.1
update_found-IsAtomic next now input db none = refl
update_found-IsAtomic next now input db (some c) =
    updated-IsAtomic now db c (update_data next now c input)

rotated-IsAtomic :
    (now : ℕ) (fresh : Text) (db : ChecksDb) (o : Option Check)
    → let t = rotated now fresh db o in IsAtomic db t.0 t.1
rotated-IsAtomic now fresh db none = refl
rotated-IsAtomic now fresh db (some c) = tt

removed-IsAtomic : (db : ChecksDb) (o : Option Check) → let t = removed db o in IsAtomic db t.0 t.1
removed-IsAtomic db none = refl
removed-IsAtomic db (some c) = tt

module _ (ping_key_of : ℕ → Text) (normalise lower : Text → Text) (fallback random : Text)
    (now project : ℕ) (request : CreateCheckRequest) (db : ChecksDb) where
  inserted-IsAtomic :
      (due : Result ChecksError ℕ)
      → let t = inserted ping_key_of normalise lower fallback random now project request db due in
        IsAtomic db t.0 t.1
  inserted-IsAtomic (ok due) = tt
  inserted-IsAtomic (err e) = refl

  within_quota-IsAtomic :
      (next : Cron) (room : Result QuotaExceeded (Unit {0}))
      → let t =
          within_quota ping_key_of normalise lower fallback random next now project request db
            room in
        IsAtomic db t.0 t.1
  within_quota-IsAtomic next (ok done) =
      inserted-IsAtomic (next_due_or_throw next (to_schedule request.schedule) now)
  within_quota-IsAtomic next (err e) = refl

-- An edit, a new ping key, a deletion and a creation that are refused, for whatever reason, have
-- changed nothing.
pub refused-IsAtomic :
    (next : Cron) (now id : ℕ) (fresh : Text) (input : UpdateCheckRequest) (db : ChecksDb)
    (ping_key_of : ℕ → Text) (normalise lower : Text → Text) (fallback random : Text)
    (cfg : QuotaConfig) (project : ℕ) (request : CreateCheckRequest)
    → let edited = update next now id input db in
      let keyed = rotate_ping_key now fresh id db in
      let deleted = remove id db in
      let added =
        create ping_key_of normalise lower fallback random cfg next now project request db in
      IsAtomic db edited.0 edited.1
      × IsAtomic db keyed.0 keyed.1
      × IsAtomic db deleted.0 deleted.1
      × IsAtomic db added.0 added.1
unfolding update rotate_ping_key remove create
refused-IsAtomic next now id fresh input db ping_key_of normalise lower fallback random cfg project
      request =
    (
      update_found-IsAtomic next now input db (find_by_id id db.tables.checks),
      rotated-IsAtomic now fresh db (find_by_id id db.tables.checks),
      removed-IsAtomic db (find_by_id id db.tables.checks),
      within_quota-IsAtomic ping_key_of normalise lower fallback random now project request db next
          (assert_can_add_check cfg project (quota_db db.tables)),
    )
