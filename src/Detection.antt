-- ===== src/Detection.antt =====
-- detection/detection.service.ts: the loop that notices silence. Each statement is a function of
-- the tables, of its `now()` and of the rows that other transactions hold (SKIP LOCKED).
pub mod Advance
pub mod Backlog
pub mod Course
pub mod Incidents
pub mod Opening
pub mod Closing
pub mod Announcing
pub mod Silence
pub mod Calm
mod Examples
use silence_watch.Prelude.{
  Bool, List, Option, Text, [], any, false, filter, if◌then◌else◌, leb, length, ltb, map, nat_eq,
  none, not, some, sort_by, suc, take, text_keys, true, zero, ℕ, ◌&&◌, ◌++◌, ◌+◌, ◌==◌, ◌||◌, ◌∷◌,
}
use silence_watch.Schedule.{compute_deadline}
use silence_watch.Tables.{
  Cause, Check, CheckState, Db, Incident, Ping, PingKind, alert_down, alert_up, down, fail, is_none,
  late, mem, missed, new, paused, reported, state_eq, up,
}
use silence_watch.Queue.{IncidentRef, Locked, enqueue}

-- The states that ADVANCE_SQL looks at.
abbrev pub is_active : CheckState → Bool
is_active new = true
is_active up = true
is_active late = true
is_active down = false
is_active paused = false

abbrev pub is_late : CheckState → Bool
is_late late = true
is_late _ = false

-- The condition of `due`; a comparison with NULL is not true.
due_at : ℕ → CheckState → ℕ → Option ℕ → Bool
due_at now state grace none = false
due_at now state grace (some t) =
    ltb t now && (is_active state && (not (is_late state) || leb (compute_deadline t grace) now))

unfoldable pub due : ℕ → Check → Bool
unfolding due_at
due now c = due_at now c.state c.grace_seconds c.next_due_at

next_state_at : ℕ → ℕ → Option ℕ → CheckState
next_state_at now grace none = late
next_state_at now grace (some t) = if leb (compute_deadline t grace) now then down else late

-- `transitioned`.
unfoldable pub next_state : ℕ → Check → CheckState
unfolding next_state_at
next_state now c = next_state_at now c.grace_seconds c.next_due_at

abbrev pub instant : Option ℕ → ℕ
instant none = 0
instant (some t) = t

abbrev pub due_key : Check → ℕ
due_key c = instant c.next_due_at

-- The rows that ADVANCE_SQL selects and locks.
unfoldable pub selected : ℕ → ℕ → Locked → List Check → List Check
selected limit now locked checks =
    take limit
      (filter (λ (c : Check). not (locked c.id)) (sort_by due_key (filter (due now) checks)))

pub record Transition : Type 0 where
  pub id : ℕ
  pub name : Text
  pub previous_state : CheckState
  pub new_state : CheckState

unfoldable pub moves : ℕ → Check → Bool
moves now c = not (state_eq c.state (next_state now c))

unfoldable pub advance_row : ℕ → List ℕ → Check → Check
unfolding moves
advance_row now ids c =
    if mem c.id ids && moves now c
    then record c { state = next_state now c; updated_at = now }
    else c

transition : ℕ → Check → Transition
transition now c = record {
  id = c.id;
  name = c.name;
  previous_state = c.state;
  new_state = next_state now c;
}

-- ADVANCE_SQL: the new table and the rows returned.
unfoldable pub advance : ℕ → ℕ → Locked → List Check → List Check × List Transition
unfolding transition
advance limit now locked checks =
    let rows = selected limit now locked checks in
    (
      map (advance_row now (map (λ (c : Check). c.id) rows)) checks,
      map (transition now) (filter (moves now) rows),
    )

pub record Detector : Type 0 where
  pub went_late : ℕ
  pub went_down : ℕ
  pub recovered : ℕ

tally_row : Detector → CheckState → Detector
tally_row d down = record d { went_down = d.went_down + 1 }
tally_row d _ = record d { went_late = d.went_late + 1 }

tally : Detector → List Transition → Detector
unfolding tally_row
tally d [] = d
tally d (t ∷ ts) = tally (tally_row d t.new_state) ts

-- What a pass does not decide: the instant of each statement, and the rows that others hold.
pub record Pass : Type 0 where
  pub advance_at : ℕ → ℕ
  pub advance_locked : ℕ → Locked
  pub open_at : ℕ
  pub open_locked : Locked
  pub down_at : ℕ
  pub resolve_at : ℕ
  pub resolve_locked : Locked
  pub up_at : ℕ

abbrev pub max_batches : ℕ
max_batches = 25

-- The loop of `advanceOverdueChecks`, on the number of batches that are left.
unfoldable pub advance_batches : ℕ → Pass → ℕ → ℕ → Detector × List Check → Detector × List Check
unfolding tally
advance_batches zero pass batch_size batch (d, checks) = (d, checks)
advance_batches (suc left) pass batch_size batch (d, checks) =
    let (checks', rows) =
      advance batch_size (pass.advance_at batch) (pass.advance_locked batch) checks in
    let d' = tally d rows in
    let rest = advance_batches left pass batch_size (batch + 1) (d', checks') in
    if ltb (length rows) batch_size then (d', checks') else rest

unfoldable pub advance_overdue_checks : Pass → ℕ → Detector × List Check → Detector × List Check
unfolding advance_batches
advance_overdue_checks pass batch_size = advance_batches max_batches pass batch_size 0

abbrev pub is_open : Incident → Bool
is_open i = is_none i.resolved_at

-- An incident of the check that is not resolved.
unfoldable pub has_open : List Incident → ℕ → Bool
has_open incidents check = any (λ (i : Incident). (i.check_id == check) && is_open i) incidents

-- The latest ping of a check, the first of those that came last.
later_of : Ping → Option Ping → Option Ping
later_of p none = some p
later_of p (some q) = if ltb p.received_at q.received_at then some q else some p

last_ping : ℕ → List Ping → Option Ping
unfolding later_of
last_ping check [] = none
last_ping check (p ∷ ps) =
    if p.check_id == check then later_of p (last_ping check ps) else last_ping check ps

cause_of_kind : PingKind → Cause
cause_of_kind fail = reported
cause_of_kind _ = missed

cause_of : Option Ping → Cause
unfolding cause_of_kind
cause_of none = missed
cause_of (some p) = cause_of_kind p.kind

unfoldable pub candidates : ℕ → Locked → Db → List Check
candidates limit locked db = take limit (
    filter (λ (c : Check). not (locked c.id))
      (filter (λ (c : Check). state_eq c.state down && not (has_open db.incidents c.id)) db.checks))

unfoldable pub new_incident : ℕ → Db → Check → Incident
unfolding last_ping cause_of
new_incident now db c = record {
  id = db.next_id;
  check_id = c.id;
  started_at = now;
  resolved_at = none;
  notifications_sent = 0;
  cause = cause_of (last_ping c.id db.pings);
}

-- INSERT … ON CONFLICT DO NOTHING, of one row, under the unique index on open incidents.
unfoldable pub insert_incident : ℕ → Check → Db × List IncidentRef → Db × List IncidentRef
unfolding new_incident
insert_incident now c (db, refs) = if has_open db.incidents c.id then (db, refs) else (
  record db { incidents = db.incidents ++ new_incident now db c ∷ []; next_id = db.next_id + 1 },
  refs ++ record { incident_id = db.next_id; check_id = c.id } ∷ [],
)

unfoldable pub insert_incidents : ℕ → List Check → Db × List IncidentRef → Db × List IncidentRef
insert_incidents now [] acc = acc
insert_incidents now (c ∷ cs) acc = insert_incidents now cs (insert_incident now c acc)

-- OPEN_INCIDENTS_SQL.
unfoldable pub open_incidents_sql : ℕ → ℕ → Locked → Db → Db × List IncidentRef
open_incidents_sql limit now locked db = insert_incidents now (candidates limit locked db) (db, [])

unfoldable pub is_well : CheckState → Bool
is_well up = true
is_well paused = true
is_well _ = false

unfoldable pub resolvable : List Check → Incident → Bool
unfolding is_well
resolvable checks i =
    is_open i && any (λ (c : Check). (c.id == i.check_id) && is_well c.state) checks

ref_of : Incident → IncidentRef
ref_of i = record { incident_id = i.id; check_id = i.check_id }

unfoldable pub resolve_row : ℕ → List ℕ → Incident → Incident
resolve_row now ids i = if mem i.id ids then record i { resolved_at = some now } else i

-- The rows that RESOLVE_INCIDENTS_SQL selects.
unfoldable pub resolving : ℕ → Locked → Db → List Incident
resolving limit locked db =
    take limit
      (filter (λ (i : Incident). not (locked i.id)) (filter (resolvable db.checks) db.incidents))

-- RESOLVE_INCIDENTS_SQL.
unfoldable pub resolve_incidents_sql : ℕ → ℕ → Locked → Db → Db × List IncidentRef
unfolding ref_of resolving resolve_row
resolve_incidents_sql limit now locked db =
    let rows = resolving limit locked db in
    (
      record db {
        incidents = map (resolve_row now (map (λ (i : Incident). i.id) rows)) db.incidents;
      },
      map ref_of rows,
    )

unfoldable pub open_incidents : Pass → ℕ → Db → Db
open_incidents pass batch_size db =
    let (db', opened) = open_incidents_sql batch_size pass.open_at pass.open_locked db in
    (enqueue alert_down pass.down_at opened db').0

unfoldable pub resolve_incidents : Pass → ℕ → Detector × Db → Detector × Db
resolve_incidents pass batch_size (d, db) =
    let (db', resolved) = resolve_incidents_sql batch_size pass.resolve_at pass.resolve_locked db in
    (
      record d { recovered = d.recovered + length resolved },
      (enqueue alert_up pass.up_at resolved db').0,
    )

-- One full pass. A statement that returns no row queues nothing, as in the early returns.
unfoldable pub tick : Pass → ℕ → Detector × Db → Detector × Db
tick pass batch_size (d, db) =
    let (d', checks) = advance_overdue_checks pass batch_size (d, db.checks) in
    resolve_incidents pass batch_size
      (d', open_incidents pass batch_size (record db { checks = checks }))
