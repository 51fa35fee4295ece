-- ===== src/Detection/Examples.antt =====
-- One check that has gone silent, and the pass that notices it.
use silence_watch.Detection.Closing.{IsUnwell}
use silence_watch.Prelude.{
  All, In, Rows, [], arith, false, inl, inr, insert_by, length, nat_eq, none, refl, some, sort_by,
  sym, text, text_keys, true, ℕ, ◌*◌, ◌∙◌, ◌∷◌, ◌≡◌, ◌≤◌,
}
use silence_watch.Prelude.Int.{pos}
use silence_watch.Schedule.{Schedule, interval}
use silence_watch.Tables.{
  Channel, Check, CheckState, Db, Incident, alert_down, api, down, missed, up,
}
use silence_watch.Queue.{Locked}
use silence_watch.Queue.Enqueueing.{IsQueued}
use silence_watch.Detection.{
  Detector, Pass, advance, advance_batches, advance_overdue_checks, advance_row, due, has_open,
  is_well, max_batches, moves, next_state, open_incidents, open_incidents_sql, resolve_incidents,
  resolve_incidents_sql, selected, tally, tick,
}
use silence_watch.Detection.Advance.{Advances, UniqueIds, advance-Advances}
use silence_watch.Detection.Backlog.{advance_overdue_checks-backlog, backlog}
use silence_watch.Detection.Course.{Follows, advance_overdue_checks-Follows}
use silence_watch.Detection.Incidents.{IsSingle, tick-IsSingle}
use silence_watch.Detection.Opening.{IsNumbered, OwnIds, unopened}
use silence_watch.Detection.Announcing.{channels_for, open_incidents-announces}
use silence_watch.Detection.Silence.{HasRoom, IsSilent, advanced, tick-silence}

abbrev hourly : Schedule
hourly = record {
  schedule_type = interval;
  period_seconds = some (pos 3600);
  cron_expression = none;
  timezone = [];
}

-- A check in a state, whose next ping was due at five seconds, with five minutes of grace.
abbrev check_in : CheckState → Check
check_in s = record {
  id = 1;
  project_id = 7;
  name = text "backup";
  slug = text "backup";
  key = none;
  ping_key = text "0b1f7a52-93c4-4d1e-8f60-5a2b3c4d5e6f";
  ping_key_rotated_at = none;
  schedule = hourly;
  grace_seconds = 300;
  state = s;
  paused_reason = none;
  last_ping_at = none;
  last_started_at = none;
  last_duration_ms = none;
  next_due_at = some 5000;
  source = api;
  environment = none;
  tags = [];
  description = none;
  orphaned_at = none;
  created_at = 0;
  updated_at = 0;
}

abbrev phone : Channel
phone = record { id = 3; project_id = 7; enabled = true }

abbrev db_in : CheckState → Db
db_in s = record {
  checks = check_in s ∷ [];
  pings = [];
  incidents = [];
  channels = phone ∷ [];
  deliveries = [];
  next_id = 1;
}

abbrev nobody : Locked
nobody i = false

-- A pass whose statements all run at one instant, alone.
abbrev alone : ℕ → Pass
alone now = record {
  advance_at = λ i. now;
  advance_locked = λ i. nobody;
  open_at = now;
  open_locked = nobody;
  down_at = now;
  resolve_at = now;
  resolve_locked = nobody;
  up_at = now;
}

abbrev nothing_yet : Detector
nothing_yet = record { went_late = 0; went_down = 0; recovered = 0 }

only_one : (s : CheckState) → UniqueIds (check_in s ∷ [])
only_one s a b (inl e) (inl f) same = sym e ∙ f
only_one s a b (inl e) (inr n) same = absurd n
only_one s a b (inr m) n same = absurd m

went_down : (tick (alone 400000) 10 (nothing_yet, db_in up)).0.went_down ≡ 1
unfolding tick advance_overdue_checks advance_batches advance advance_row selected due next_state
    moves tally sort_by insert_by open_incidents resolve_incidents open_incidents_sql
    resolve_incidents_sql
went_down = refl

advance-Advances_example :
    Rows (Advances 6000) (db_in up).checks (advance 10 6000 nobody (db_in up).checks).0
advance-Advances_example = advance-Advances 10 6000 nobody (db_in up).checks (only_one up)

advance_overdue_checks-Follows_example :
    Rows Follows
      (db_in up).checks
      (advance_overdue_checks (alone 6000) 10 (nothing_yet, (db_in up).checks)).1
    × UniqueIds (advance_overdue_checks (alone 6000) 10 (nothing_yet, (db_in up).checks)).1
advance_overdue_checks-Follows_example =
    advance_overdue_checks-Follows (alone 6000) 10 nothing_yet (db_in up).checks (only_one up)

one_due : backlog 400000 (db_in up).checks ≤ max_batches * 10
unfolding due
one_due = omega arith

advance_overdue_checks-backlog_example :
    backlog 400000 (advance_overdue_checks (alone 400000) 10 (nothing_yet, (db_in up).checks)).1 ≡ 0
advance_overdue_checks-backlog_example =
    advance_overdue_checks-backlog (alone 400000) 400000 10 nothing_yet (db_in up).checks
      (λ i. refl) (λ i j. refl) one_due

tick-IsSingle_example : IsSingle (tick (alone 400000) 10 (nothing_yet, db_in up)).1.incidents
tick-IsSingle_example = tick-IsSingle (alone 400000) 10 nothing_yet (db_in up) (λ i. ground arith)

one_waits : length (unopened (db_in down)) ≤ 10
unfolding has_open
one_waits = ground arith

waiting : In (check_in down) (unopened (db_in down))
unfolding has_open
waiting = inl refl

open_incidents-announces_example :
    let db' = open_incidents (alone 400000) 10 (db_in down) in
    (i : Incident) × In i db'.incidents
    × (i.check_id ≡ 1)
    × (i.resolved_at ≡ none)
    × All
        (λ (ch : Channel). IsQueued alert_down db' (i.id, ch.id))
        (channels_for (check_in down) (phone ∷ []))
open_incidents-announces_example =
    open_incidents-announces (alone 400000) 10 (db_in down) (check_in down) (λ i. refl) one_waits
      waiting

no_incidents : (s : CheckState) → IsNumbered (db_in s)
no_incidents s = record { own = λ i j m. absurd m; below = λ i m. absurd m }

one_opens : length (unopened (advanced (alone 400000) 10 nothing_yet (db_in up))) ≤ 10
unfolding advance_overdue_checks advance_batches advance advance_row selected due next_state moves
    sort_by insert_by has_open
one_opens = omega arith

has_room : HasRoom (alone 400000) 400000 10 nothing_yet (db_in up)
has_room = record {
  clock = λ i. refl;
  advance_free = λ i j. refl;
  open_free = λ i. refl;
  due_fit = one_due;
  unopened_fit = one_opens;
}

overdue_check : IsSilent 400000 (check_in up)
overdue_check = (refl, (5000, refl, omega arith, ground arith))

tick-silence_example :
    let db' = (tick (alone 400000) 10 (nothing_yet, db_in up)).1 in
    (c' : Check) × In c' db'.checks
    × (c'.id ≡ 1)
    × (c'.state ≡ down)
    × (has_open db'.incidents 1 ≡ true)
tick-silence_example =
    tick-silence (alone 400000) 400000 10 nothing_yet (db_in up) (check_in up) (only_one up)
      (no_incidents up) has_room (inl refl) overdue_check

-- The tables with an open incident of the check.
abbrev db_open : Db
db_open = record (db_in down) {
  incidents =
      record {
        id = 4;
        check_id = 1;
        started_at = 400000;
        resolved_at = none;
        notifications_sent = 0;
        cause = missed;
      }
      ∷ [];
  next_id = 5;
}

one_incident : OwnIds db_open.incidents
one_incident i j (inl e) (inl f) same = sym e ∙ f
one_incident i j (inl e) (inr n) same = absurd n
one_incident i j (inr m) n same = absurd m

is_down : IsUnwell db_open.checks 1
unfolding is_well
is_down c (inl e) same = rw (sym e) refl
is_down c (inr m) same = absurd m

still_open : has_open db_open.incidents 1 ≡ true
unfolding has_open
still_open = refl
