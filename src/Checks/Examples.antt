-- ===== src/Checks/Examples.antt =====
-- One check, which the plan paused.
use silence_watch.Checks.Pausing.{update-past_plan}
use silence_watch.Checks.Deadlines.{IsEdited, update-IsEdited}
use silence_watch.Quotas.Enforcer.{owner_row}
use silence_watch.Checks.Keys.{IsOwnKey, rotate_ping_key-replaced}
use silence_watch.Schedule.{Cron, compute_next_due_at, interval}
use silence_watch.Tables.{Check, api, new, paused, quota}
use silence_watch.Checks.{ChecksDb, find_by_id, rotate_ping_key, update}
use silence_watch.Prelude.Int.{pos}
use silence_watch.Prelude.{
  [], ap, false, inl, inr, nat_eq, none, ok, refl, some, sym, text, text_keys, ◌∷◌, ◌≡◌,
}
use silence_watch.Checks.Requests.{CreateCheckRequest, ScheduleInput, UpdateCheckRequest}
use silence_watch.Quotas.{Account, QuotaConfig, owner}
use silence_watch.Cache.{load, peek}

abbrev stopped : Check
stopped = record {
  id = 1;
  project_id = 7;
  name = text "backup";
  slug = text "backup";
  key = none;
  ping_key = text "k1";
  ping_key_rotated_at = none;
  schedule = record {
    schedule_type = interval;
    period_seconds = some (pos 60);
    cron_expression = none;
    timezone = text "UTC";
  };
  grace_seconds = 300;
  state = paused;
  paused_reason = some quota;
  last_ping_at = none;
  last_started_at = none;
  last_duration_ms = none;
  next_due_at = none;
  source = api;
  environment = none;
  tags = [];
  description = none;
  orphaned_at = none;
  created_at = 0;
  updated_at = 0;
}

abbrev db : ChecksDb
db = record {
  tables = record {
    members = record { project_id = 7; user_id = 1; role = owner } ∷ [];
    users = record { id = 1; plan = some (text "free") } ∷ [];
    checks = stopped ∷ [];
  };
  cache = record { entries = []; in_flight = []; hits = 0; misses = 0 };
  next_id = 2;
}

abbrev no_cron : Cron
no_cron expression timezone from = none

abbrev as_it_was : ScheduleInput
as_it_was = record {
  schedule_type = none;
  period_seconds = none;
  cron_expression = none;
  timezone = none;
}

abbrev resume_it : UpdateCheckRequest
resume_it = record {
  name = none;
  grace_seconds = none;
  environment = none;
  tags = none;
  description = none;
  is_paused = some false;
  schedule = as_it_was;
}

found : find_by_id 1 db.tables.checks ≡ some stopped
unfolding find_by_id
found = refl

due_at : compute_next_due_at no_cron stopped.schedule 5000 ≡ ok 65000
unfolding compute_next_due_at
due_at = refl

own_key : IsOwnKey (text "k1") 1 db.tables.checks
own_key c (inl e) h = ap (λ (x : Check). x.id) (sym e)
own_key c (inr m) h = absurd m

update-past_plan_example :
    let after = (update no_cron 5000 1 resume_it db).0.tables in
    ((c : Check) × (find_by_id 1 after.checks ≡ some c)
      × (c.state ≡ new)
      × (c.next_due_at ≡ some 65000)
      × (c.paused_reason ≡ some quota))
    × ((u : Account) → (owner_row after u).active_checks ≡ (owner_row db.tables u).active_checks)
update-past_plan_example =
    update-past_plan no_cron 5000 1 resume_it db stopped 65000 found refl refl refl refl due_at

update-IsEdited_example :
    let t = update no_cron 5000 1 resume_it db in
    IsEdited no_cron 5000 1 resume_it db stopped t.0 t.1
update-IsEdited_example = update-IsEdited no_cron 5000 1 resume_it db stopped found

rotate_ping_key-replaced_example :
    let after = (rotate_ping_key 5000 (text "k2") 1 db).0 in
    (load after.tables.checks (text "k1") ≡ none)
    × (peek after.cache (text "k1") 6000 ≡ none)
    × (load after.tables.checks (text "k2") ≡ some (record { id = 1; schedule = stopped.schedule }))
    × (peek after.cache (text "k2") 6000 ≡ none)
rotate_ping_key-replaced_example =
    rotate_ping_key-replaced 5000 6000 1 (text "k2") db stopped found own_key refl

abbrev config : QuotaConfig
config = record { quotas_enabled = false; default_plan = text "free"; plan_limits = [] }

abbrev request : CreateCheckRequest
request = record {
  name = text "backup";
  slug = none;
  grace_seconds = 60;
  environment = none;
  tags = none;
  description = none;
  schedule = as_it_was;
}
