-- ===== src/Retention.antt =====
-- retention/retention.service.ts: what the daily purge deletes. Instants are milliseconds, and a day
-- has 24 hours. A LIMIT without an order takes the first rows of the table here. The join of a
-- project to its owner is `owner_of`: the application gives a project one owner.
pub mod Caps
pub mod Batches
pub mod Loops
pub mod Keeping
mod Examples
use silence_watch.Pages.{PingRow}
use silence_watch.OrderedMap.{get}
use silence_watch.Checks.{find_by_id, or_else}
use silence_watch.Tables.{Check, Delivery, DeliveryStatus, Incident, mem, pending}
use silence_watch.Prelude.{
  Bool, List, Option, Text, [], any, false, filter, if◌then◌else◌, length, ltb, map, min, nat_eq,
  none, not, some, suc, take, text_keys, true, zero, ℕ, ◌*◌, ◌+◌, ◌-◌, ◌==◌, ◌||◌, ◌∷◌,
}
use silence_watch.Quotas.{PlanLimits, QuotaConfig, QuotaDb, owner_of, plan_of}

abbrev pub day_ms : ℕ
day_ms = 86400000

abbrev pub batch_size : ℕ
batch_size = 10000

abbrev pub max_batches : ℕ
max_batches = 200

-- The largest `int`.
abbrev pub int_max : ℕ
int_max = 2147483647

pub record ProjectRow : Type 0 where
  pub id : ℕ
  pub ping_retention_days : Option ℕ

pub record RetentionDb : Type 0 where
  pub projects : List ProjectRow
  pub accounts : QuotaDb
  pub checks : List Check
  pub pings : List PingRow
  pub incidents : List Incident
  pub deliveries : List Delivery

-- The entries of `retentionCapsJson`.
unfoldable pub caps_of : List (Text × PlanLimits) → List (Text × ℕ)
caps_of [] = []
caps_of ((plan, limits) ∷ rest) = elim limits.retention_days [
  | none ↦ caps_of rest
  | some days ↦ (plan, days) ∷ caps_of rest
]

unfoldable pub retention_caps : QuotaConfig → List (Text × ℕ)
retention_caps cfg = if cfg.quotas_enabled then caps_of cfg.plan_limits else []

-- `LEFT JOIN plan_caps`.
abbrev pub cap_for : List (Text × ℕ) → Option Text → Option ℕ
cap_for caps none = none
cap_for caps (some plan) = get plan caps

-- The days of a row of `project_retention`; `default_days` is PING_RETENTION_DAYS.
unfoldable pub days_kept : QuotaConfig → ℕ → QuotaDb → ProjectRow → ℕ
days_kept cfg default_days accounts project =
    min (or_else project.ping_retention_days default_days)
      (or_else (cap_for (retention_caps cfg) (plan_of (owner_of project.id accounts))) int_max)

unfoldable pub find_project : ℕ → List ProjectRow → Option ProjectRow
find_project id [] = none
find_project id (p ∷ ps) = let rest = find_project id ps in if p.id == id then some p else rest

module _ (cfg : QuotaConfig) (default_days now : ℕ) (db : RetentionDb) where
  abbrev older : ℕ → Option ProjectRow → Bool
  older at none = false
  older at (some p) = ltb (at + days_kept cfg default_days db.accounts p * day_ms) now

  abbrev older_check : ℕ → Option Check → Bool
  older_check at none = false
  older_check at (some c) = older at (find_project c.project_id db.projects)

  -- The rows of PURGE_PINGS_SQL.
  unfoldable pub dead_ping : PingRow → Bool
  dead_ping p = older_check p.ping.received_at (find_by_id p.ping.check_id db.checks)

  abbrev dead_since : Incident → Option ℕ → Bool
  dead_since i none = false
  dead_since i (some at) = older_check at (find_by_id i.check_id db.checks)

  -- The rows of PURGE_INCIDENTS_SQL.
  unfoldable pub dead_incident : Incident → Bool
  dead_incident i = dead_since i i.resolved_at

module _ {A : Type 0} (id_of : A → ℕ) (dead : A → Bool) where
  -- One statement: what it leaves, and its `rowCount`.
  unfoldable pub purge_batch : ℕ → List A → List A × ℕ
  purge_batch limit rows =
      let doomed = map id_of (take limit (filter dead rows)) in
      (
        filter (λ x. not (mem (id_of x) doomed)) rows,
        length (filter (λ x. mem (id_of x) doomed) rows),
      )

module _ {A : Type 0} (id_of : A → ℕ) (dead : ℕ → A → Bool) where
  -- The loop, with the number of batches that are left and that of the batch; each statement has a
  -- `now()` of its own, so that the rows that are dead depend on the batch.
  unfoldable pub purge_batches : ℕ → ℕ → ℕ → List A → List A × ℕ
  purge_batches limit zero batch rows = (rows, 0)
  purge_batches limit (suc left) batch rows =
      let once = purge_batch id_of (dead batch) limit rows in
      let rest = purge_batches limit left (batch + 1) once.0 in
      if ltb once.1 limit then once else (rest.0, once.1 + rest.1)

-- The `now()` of each statement.
pub record PurgeClock : Type 0 where
  pub pings_at : ℕ → ℕ
  pub incidents_at : ℕ → ℕ
  pub deliveries_at : ℕ

abbrev pub is_unsent : DeliveryStatus → Bool
is_unsent pending = true
is_unsent _ = false

-- PURGE_DELIVERIES_SQL: what it leaves.
unfoldable pub kept_delivery : ℕ → Delivery → Bool
kept_delivery now d = is_unsent d.status || not (ltb (d.created_at + 30 * day_ms) now)

pub record PurgeSummary : Type 0 where
  pub pings : ℕ
  pub incidents : ℕ
  pub deliveries : ℕ

-- `purge`, but for sessions, keys, links and the audit trail. The deliveries of an incident that is
-- deleted go with it (the foreign key cascades).
unfoldable pub purge : QuotaConfig → ℕ → PurgeClock → RetentionDb → RetentionDb × PurgeSummary
purge cfg default_days clock db =
    let (pings, purged) =
      purge_batches (λ (p : PingRow). p.id)
        (λ batch. dead_ping cfg default_days (clock.pings_at batch) db) batch_size max_batches 0
        db.pings in
    let (incidents, closed) =
      purge_batches (λ (i : Incident). i.id)
        (λ batch. dead_incident cfg default_days (clock.incidents_at batch) db) batch_size
        max_batches 0 db.incidents in
    let owned =
      filter (λ (d : Delivery). any (λ (i : Incident). i.id == d.incident_id) incidents)
        db.deliveries in
    let deliveries = filter (kept_delivery clock.deliveries_at) owned in
    (
      record db { pings = pings; incidents = incidents; deliveries = deliveries },
      record { pings = purged; incidents = closed; deliveries = length owned - length deliveries },
    )
