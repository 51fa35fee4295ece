-- ===== src/Recovery/Examples.antt =====
-- A late heartbeat of a check that was down.
use silence_watch.Cache.{finish_load, get_cached, load, peek}
use silence_watch.OrderedMap.{delete, get, set}
use silence_watch.RateLimiter.{exceeded, hit}
use silence_watch.Ingest.Values.{is_uuid, to_lower}
use silence_watch.Recovery.{before_resolving, tick-recorded}
use silence_watch.Schedule.{compute_next_due_at, interval}
use silence_watch.Queue.{enqueue}
use silence_watch.Ingest.Sql.{ingest_sql}
use silence_watch.Prelude.Int.{pos}
use silence_watch.Prelude.{
  In, Text, [], ap, arith, false, filter, inl, inr, insert_by, length, nat_eq, none, refl, some,
  sort_by, sym, text, text_keys, ℕ, ◌∙◌, ◌∷◌, ◌≡◌, ◌≤◌,
}
use silence_watch.Ingest.{IngestCommand, Runtime, Service, ingest, recorded}
use silence_watch.Detection.{
  Detector, Pass, advance, advance_batches, advance_overdue_checks, advance_row, candidates, due,
  has_open, insert_incidents, is_well, moves, next_state, open_incidents, open_incidents_sql,
  resolvable, selected, tick,
}
use silence_watch.Detection.Advance.{UniqueIds}
use silence_watch.Tables.{Check, Db, Incident, api, down, missed, success}

abbrev silent : Runtime
silent = record { next = λ e tz from. none; decode = λ bytes. bytes }

abbrev key : Text
key = text "0b1f7a52-93c4-4d1e-8f60-5a2b3c4d5e6f"

abbrev fallen : Check
fallen = record {
  id = 1;
  project_id = 7;
  name = text "backup";
  slug = text "backup";
  key = none;
  ping_key = key;
  ping_key_rotated_at = none;
  schedule = record {
    schedule_type = interval;
    period_seconds = some (pos 3600);
    cron_expression = none;
    timezone = [];
  };
  grace_seconds = 300;
  state = down;
  paused_reason = none;
  last_ping_at = none;
  last_started_at = none;
  last_duration_ms = none;
  next_due_at = some 1000;
  source = api;
  environment = none;
  tags = [];
  description = none;
  orphaned_at = none;
  created_at = 0;
  updated_at = 0;
}

abbrev outage : Incident
outage = record {
  id = 3;
  check_id = 1;
  started_at = 2000;
  resolved_at = none;
  notifications_sent = 0;
  cause = missed;
}

abbrev db : Db
db = record {
  checks = fallen ∷ [];
  pings = [];
  incidents = outage ∷ [];
  channels = [];
  deliveries = [];
  next_id = 4;
}

abbrev call : IngestCommand
call = record {
  ping_key = key;
  kind = success;
  exit_code = none;
  duration_ms = none;
  body = none;
  ip = none;
  user_agent = none;
}

abbrev service : Service
service = record {
  per_key_limiter = record { limit = 10; window_ms = 60000; max_keys = 100; windows = [] };
  unknown_key_limiter = record { limit = 60; window_ms = 60000; max_keys = 100; windows = [] };
  cache = record { entries = []; in_flight = []; hits = 0; misses = 0 };
  max_body_bytes = 100;
}

abbrev pass : Pass
pass = record {
  advance_at = λ batch. 7000;
  advance_locked = λ batch id. false;
  open_at = 7000;
  open_locked = λ id. false;
  down_at = 7000;
  resolve_at = 7000;
  resolve_locked = λ id. false;
  up_at = 7000;
}

abbrev detector : Detector
detector = record { went_late = 0; went_down = 0; recovered = 0 }

answered : (ingest silent (service, db) call 6000 6000).1 ≡ recorded
unfolding ingest ingest_sql hit get set delete exceeded peek get_cached finish_load load is_uuid
    to_lower
answered = refl

one_check : (c : Check) → In c db.checks → c.ping_key ≡ to_lower key → c.id ≡ 1
one_check c (inl e) h = ap (λ (x : Check). x.id) (sym e)
one_check c (inr m) h = absurd m

own_ids : UniqueIds db.checks
own_ids a b (inl p) (inl q) e = sym p ∙ q
own_ids a b (inl p) (inr n) e = absurd n
own_ids a b (inr m) n e = absurd m

not_due :
    (c : Check)
    → In c (ingest silent (service, db) call 6000 6000).0.1.checks
    → c.id ≡ 1
    → (n : ℕ) → due (pass.advance_at n) c ≡ false
unfolding ingest ingest_sql hit get set delete exceeded peek get_cached finish_load load is_uuid
    to_lower due compute_next_due_at
not_due c (inl p) e n = ap (due 7000) (sym p)
not_due c (inr m) e n = absurd m

one_to_resolve :
    let mid = before_resolving pass 200 detector (ingest silent (service, db) call 6000 6000).0.1 in
    length (filter (resolvable mid.checks) mid.incidents) ≤ 200
unfolding ingest ingest_sql hit get set delete exceeded peek get_cached finish_load load is_uuid
    to_lower due compute_next_due_at advance_overdue_checks advance_batches advance advance_row
    selected next_state moves sort_by insert_by has_open open_incidents open_incidents_sql
    candidates insert_incidents enqueue resolvable is_well
one_to_resolve = omega arith

tick-recorded_example :
    let after = (ingest silent (service, db) call 6000 6000).0.1 in
    In (record outage { resolved_at = some 7000 }) (tick pass 200 (detector, after)).1.incidents
tick-recorded_example =
    tick-recorded silent service db call 6000 6000 pass 200 detector outage refl answered own_ids
      (inl refl) refl one_check not_due (λ x. refl) one_to_resolve
