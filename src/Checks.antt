-- ===== src/Checks.antt =====
-- checks/checks.service.ts, checks/check-schedule.ts and the statements of
-- checks/checks.repository.ts: what a user does to a check. The tables are those that the quota
-- enforcer works on, and the cache is that of ingestion. `new Date()` is the argument `now`.
pub mod Requests
pub mod Pausing
pub mod Deadlines
pub mod Keys
pub mod Refusals
pub mod Creating
mod Examples
use silence_watch.Quotas.Enforcer.{EnforcerDb}
use silence_watch.Cache.{Cache, invalidate}
use silence_watch.Quotas.{QuotaExceeded}
use silence_watch.Prelude.{
  Bool, List, Option, Result, Text, [], err, false, filter, if◌then◌else◌, map, map_err, nat_eq,
  none, not, ok, some, text, text_keys, true, ℕ, ◌==◌, ◌∷◌,
}
use silence_watch.Tables.{Check, CheckState, is_none, new, paused, state_eq}
use silence_watch.Schedule.{
  Cron, InvalidScheduleError, Schedule, compute_next_due_at, cron, interval,
}
use silence_watch.Checks.Requests.{ScheduleInput, UpdateCheckRequest, is_cron}

pub data ChecksError : Type 0 where
  not_found : ChecksError
  bad_request : InvalidScheduleError → ChecksError
  over_quota : QuotaExceeded → ChecksError

pub record ChecksDb : Type 0 where
  pub tables : EnforcerDb
  pub cache : Cache
  pub next_id : ℕ

-- `findById`.
unfoldable pub find_by_id : ℕ → List Check → Option Check
find_by_id id [] = none
find_by_id id (c ∷ cs) = let rest = find_by_id id cs in if c.id == id then some c else rest

abbrev utc : Text
utc = text "UTC"

abbrev or_utc : Option Text → Text
or_utc none = utc
or_utc (some zone) = zone

unfoldable pub to_schedule : ScheduleInput → Schedule
to_schedule input = elim (is_cron input.schedule_type) [
  | true ↦ record {
    schedule_type = cron;
    period_seconds = none;
    cron_expression = input.cron_expression;
    timezone = or_utc input.timezone;
  }
  | false ↦ record {
    schedule_type = interval;
    period_seconds = input.period_seconds;
    cron_expression = none;
    timezone = or_utc input.timezone;
  }
]

abbrev pub next_due_or_throw : Cron → Schedule → ℕ → Result ChecksError ℕ
next_due_or_throw next schedule from = map_err bad_request (compute_next_due_at next schedule from)

-- The columns that an update writes: `none` leaves a column as it is.
pub record CheckUpdate : Type 0 where
  pub name : Option Text
  pub grace_seconds : Option ℕ
  pub environment : Option (Option Text)
  pub tags : Option (List Text)
  pub description : Option (Option Text)
  pub schedule : Option Schedule
  pub next_due_at : Option ℕ
  pub state : Option CheckState

abbrev plain_update : UpdateCheckRequest → CheckUpdate
plain_update input = record {
  name = input.name;
  grace_seconds = input.grace_seconds;
  environment = input.environment;
  tags = input.tags;
  description = input.description;
  schedule = none;
  next_due_at = none;
  state = none;
}

abbrev schedule_moved :
    CheckUpdate → Schedule → Result ChecksError ℕ → Result ChecksError CheckUpdate
schedule_moved columns schedule (err e) = err e
schedule_moved columns schedule (ok due) =
    ok (record columns { schedule = some schedule; next_due_at = some due })

-- `scheduleChanged`.
unfoldable pub change_schedule :
    Cron → ℕ → ScheduleInput → CheckUpdate → Result ChecksError CheckUpdate
change_schedule next now input columns =
    if is_none input.schedule_type
    then ok columns
    else schedule_moved columns (to_schedule input) (next_due_or_throw next (to_schedule input) now)

abbrev pub or_else {ℓ} : {A : Type ℓ} → Option A → A → A
or_else none a = a
or_else (some b) a = b

abbrev restarted : CheckUpdate → Result ChecksError ℕ → Result ChecksError CheckUpdate
restarted columns (err e) = err e
restarted columns (ok due) = ok (record columns { state = some new; next_due_at = some due })

unfoldable pub change_pause :
    Cron → ℕ → Check → Option Bool → CheckUpdate → Result ChecksError CheckUpdate
change_pause next now existing none columns = ok columns
change_pause next now existing (some true) columns = ok (record columns { state = some paused })
change_pause next now existing (some false) columns =
    if state_eq existing.state paused
    then restarted columns (next_due_or_throw next (or_else columns.schedule existing.schedule) now)
    else ok columns

abbrev after_schedule :
    Cron → ℕ → Check → Option Bool → Result ChecksError CheckUpdate → Result ChecksError CheckUpdate
after_schedule next now existing pause (err e) = err e
after_schedule next now existing pause (ok columns) = change_pause next now existing pause columns

-- `data` of `update`.
unfoldable pub update_data : Cron → ℕ → Check → UpdateCheckRequest → Result ChecksError CheckUpdate
update_data next now existing input =
    after_schedule next now existing input.is_paused
      (change_schedule next now input.schedule (plain_update input))

abbrev pub or_kept : Option ℕ → Option ℕ → Option ℕ
or_kept none kept = kept
or_kept (some n) kept = some n

unfoldable pub write_update : ℕ → CheckUpdate → Check → Check
write_update now columns c = record c {
  name = or_else columns.name c.name;
  grace_seconds = or_else columns.grace_seconds c.grace_seconds;
  environment = or_else columns.environment c.environment;
  tags = or_else columns.tags c.tags;
  description = or_else columns.description c.description;
  schedule = or_else columns.schedule c.schedule;
  next_due_at = or_kept columns.next_due_at c.next_due_at;
  state = or_else columns.state c.state;
  updated_at = now;
}

-- An UPDATE of the row with an id.
abbrev pub write_row : ℕ → (Check → Check) → List Check → List Check
write_row id f = map λ c. if c.id == id then f c else c

abbrev pub with_checks : ChecksDb → List Check → ChecksDb
with_checks db checks = record db { tables = record db.tables { checks = checks } }

abbrev pub invalidated : ChecksDb → Text → ChecksDb
invalidated db key = record db { cache = invalidate db.cache key }

abbrev row_updated :
    ℕ → ChecksDb → Check → Result ChecksError CheckUpdate → ChecksDb × Result ChecksError Check
row_updated now db existing (err e) = (db, err e)
row_updated now db existing (ok columns) = (
  invalidated (with_checks db (write_row existing.id (write_update now columns) db.tables.checks))
      (write_update now columns existing).ping_key,
  ok (write_update now columns existing),
)

abbrev update_found :
    Cron → ℕ → UpdateCheckRequest → ChecksDb → Option Check → ChecksDb × Result ChecksError Check
update_found next now input db none = (db, err not_found)
update_found next now input db (some existing) =
    row_updated now db existing (update_data next now existing input)

-- The answers of the four operations are rows, which `toDto` maps to what is sent.
unfoldable pub update :
    Cron → ℕ → ℕ → UpdateCheckRequest → ChecksDb → ChecksDb × Result ChecksError Check
update next now check_id input db =
    update_found next now input db (find_by_id check_id db.tables.checks)

-- `replacePingKey`; `fresh` is what `gen_random_uuid()` gives.
unfoldable pub replace_ping_key : ℕ → Text → Check → Check
replace_ping_key now fresh c = record c { ping_key = fresh; ping_key_rotated_at = some now }

abbrev rotated : ℕ → Text → ChecksDb → Option Check → ChecksDb × Result ChecksError Check
rotated now fresh db none = (db, err not_found)
rotated now fresh db (some c) = (
  invalidated
      (invalidated (with_checks db (write_row c.id (replace_ping_key now fresh) db.tables.checks))
        c.ping_key)
      fresh,
  ok (replace_ping_key now fresh c),
)

unfoldable pub rotate_ping_key : ℕ → Text → ℕ → ChecksDb → ChecksDb × Result ChecksError Check
rotate_ping_key now fresh check_id db = rotated now fresh db (find_by_id check_id db.tables.checks)

abbrev removed : ChecksDb → Option Check → ChecksDb × Result ChecksError (Unit {0})
removed db none = (db, err not_found)
removed db (some c) = (
  invalidated (with_checks db (filter (λ (x : Check). not (x.id == c.id)) db.tables.checks))
      c.ping_key,
  ok tt,
)

unfoldable pub remove : ℕ → ChecksDb → ChecksDb × Result ChecksError (Unit {0})
remove check_id db = removed db (find_by_id check_id db.tables.checks)
