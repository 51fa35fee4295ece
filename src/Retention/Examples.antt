-- ===== src/Retention/Examples.antt =====
-- One project of a customer whose plan keeps seven days.
use silence_watch.OrderedMap.{get}
use silence_watch.Retention.Keeping.{purge-open, purge-pings}
use silence_watch.Schedule.{interval}
use silence_watch.Checks.{find_by_id}
use silence_watch.Tables.{
  Check, Delivery, Incident, alert_down, api, down, missed, pending, success,
}
use silence_watch.Retention.{
  ProjectRow, PurgeClock, RetentionDb, caps_of, days_kept, dead_ping, find_project, purge,
  retention_caps,
}
use silence_watch.Pages.{PingRow}
use silence_watch.Prelude.Int.{pos}
use silence_watch.Prelude.{
  In, [], arith, false, filter, inl, length, length-filter-le, min, nat_eq, none, refl, some, text,
  text_keys, true, ℕ, ◌*◌, ◌+◌, ◌∷◌, ◌≡◌, ◌≤◌,
}
use silence_watch.Quotas.{QuotaConfig, QuotaDb, owner, owner_of}

abbrev config : QuotaConfig
config = record {
  quotas_enabled = true;
  default_plan = text "free";
  plan_limits =
      (
        text "free",
        record {
          checks = some 5;
          projects = none;
          channels_per_project = none;
          retention_days = some 7;
        },
      )
      ∷ [];
}

abbrev accounts : QuotaDb
accounts = record {
  members = record { project_id = 7; user_id = 1; role = owner } ∷ [];
  users = record { id = 1; plan = some (text "free") } ∷ [];
  check_projects = 7 ∷ [];
  channel_projects = [];
}

abbrev project : ProjectRow
project = record { id = 7; ping_retention_days = some 90 }

abbrev ping_at : ℕ → ℕ → PingRow
ping_at id t = record {
  id = id;
  ping = record {
    check_id = 1;
    received_at = t;
    kind = success;
    exit_code = none;
    duration_ms = none;
    body = none;
    source_ip = none;
    user_agent = none;
  };
}

abbrev check : Check
check = record {
  id = 1;
  project_id = 7;
  name = text "backup";
  slug = text "backup";
  key = none;
  ping_key = text "k1";
  ping_key_rotated_at = none;
  schedule = record {
    schedule_type = interval;
    period_seconds = some (pos 60);
    cron_expression = none;
    timezone = text "UTC";
  };
  grace_seconds = 300;
  state = down;
  paused_reason = none;
  last_ping_at = none;
  last_started_at = none;
  last_duration_ms = none;
  next_due_at = none;
  source = api;
  environment = none;
  tags = [];
  description = none;
  orphaned_at = none;
  created_at = 0;
  updated_at = 0;
}

abbrev incident : Incident
incident = record {
  id = 3;
  check_id = 1;
  started_at = 0;
  resolved_at = none;
  notifications_sent = 0;
  cause = missed;
}

abbrev delivery : Delivery
delivery = record {
  id = 4;
  incident_id = 3;
  channel_id = 5;
  kind = alert_down;
  status = pending;
  attempts = 0;
  last_error = none;
  next_attempt_at = 0;
  sent_at = none;
  created_at = 0;
}

-- The tenth day.
abbrev now : ℕ
now = 864000000

abbrev db : RetentionDb
db = record {
  projects = project ∷ [];
  accounts = accounts;
  checks = check ∷ [];
  pings = ping_at 2 800000000 ∷ ping_at 1 1000 ∷ [];
  incidents = incident ∷ [];
  deliveries = delivery ∷ [];
}

an_old_ping : dead_ping config 30 now db (ping_at 1 1000) ≡ true
unfolding dead_ping find_by_id find_project days_kept retention_caps caps_of owner_of get
an_old_ping = refl

-- A purge that takes a second for each statement on pings, up to three minutes.
abbrev slow : PurgeClock
slow = record {
  pings_at = λ batch. min (now + batch * 1000) (now + 180000);
  incidents_at = λ batch. now + 200000;
  deliveries_at = now + 300000;
}

few_old_pings : length (filter (dead_ping config 30 (now + 180000) db) db.pings) ≤ 2000000
few_old_pings = omega (arith, length-filter-le (dead_ping config 30 (now + 180000) db) db.pings)

purge-pings_example :
    let after = (purge config 30 slow db).0 in
    (In (ping_at 1 1000) db.pings
      → dead_ping config 30 (now + 180000) db (ping_at 1 1000) ≡ false
      → In (ping_at 1 1000) after.pings)
    × (In (ping_at 1 1000) after.pings → dead_ping config 30 now db (ping_at 1 1000) ≡ false)
purge-pings_example =
    purge-pings config 30 slow db now (now + 180000) (ping_at 1 1000) (λ n. omega arith)
      (λ n. omega arith) (refl, (refl, tt)) few_old_pings

purge-open_example :
    let after = (purge config 30 slow db).0 in
    In incident after.incidents
    × (In delivery db.deliveries
        → delivery.incident_id ≡ incident.id
        → delivery.status ≡ pending
        → In delivery after.deliveries)
purge-open_example = purge-open config 30 slow db incident delivery (refl, tt) (inl refl) refl
