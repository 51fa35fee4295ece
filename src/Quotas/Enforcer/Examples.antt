-- ===== src/Quotas/Enforcer/Examples.antt =====
-- One account on a plan with room for no check, and a person's own pause.
use silence_watch.Prelude.{
  In, List, [], arith, filter, inl, insert_by, length, map, nat_eq, none, refl, some, sort_by, text,
  text_keys, true, ℕ, ◌<◌, ◌∷◌, ◌≡◌,
}
use silence_watch.Prelude.Int.{pos}
use silence_watch.OrderedMap.{get}
use silence_watch.Schedule.{interval}
use silence_watch.Tables.{Check, CheckState, api, new, paused, up}
use silence_watch.Quotas.{Account, QuotaConfig, limits_for, owner}
use silence_watch.Quotas.Enforcer.{
  EnforcerDb, Reconciled, doomed, owner_row, owners_with_checks, pause_excess, pause_row, reconcile,
  reconcile_owner, reconcile_owners, resume, resume_row, revived,
}
use silence_watch.Quotas.Enforcer.Forgetting.{reconcile_owner-forgets_pause}
use silence_watch.Quotas.Enforcer.Pausing.{active, reconcile_owner-limit}

abbrev check_in : CheckState → Check
check_in s = record {
  id = 1;
  project_id = 7;
  name = text "backup";
  slug = text "backup";
  key = none;
  ping_key = text "0b1f7a52-93c4-4d1e-8f60-5a2b3c4d5e6f";
  ping_key_rotated_at = none;
  schedule = record {
    schedule_type = interval;
    period_seconds = some (pos 3600);
    cron_expression = none;
    timezone = [];
  };
  grace_seconds = 300;
  state = s;
  paused_reason = none;
  last_ping_at = none;
  last_started_at = none;
  last_duration_ms = none;
  next_due_at = none;
  source = api;
  environment = none;
  tags = [];
  description = none;
  orphaned_at = none;
  created_at = 0;
  updated_at = 0;
}

abbrev customer : Account
customer = record { id = 1; plan = some (text "small") }

abbrev tables : CheckState → EnforcerDb
tables s = record {
  members = record { project_id = 7; user_id = 1; role = owner } ∷ [];
  users = customer ∷ [];
  checks = check_in s ∷ [];
}

abbrev config_of : ℕ → QuotaConfig
config_of limit = record {
  quotas_enabled = true;
  default_plan = text "small";
  plan_limits =
      (
        text "small",
        record {
          checks = some limit;
          projects = none;
          channels_per_project = none;
          retention_days = none;
        },
      )
      ∷ [];
}

abbrev states_of : EnforcerDb → List CheckState
states_of db = map (λ (c : Check). c.state) db.checks

-- A check that a person paused, over two passes: its plan shrinks to nothing, and grows again.
resumed_against_the_pause :
    states_of (reconcile (config_of 5) 2000 (reconcile (config_of 0) 1000 (tables paused)).0).0
    ≡ new ∷ []
unfolding reconcile reconcile_owners reconcile_owner owners_with_checks pause_excess doomed resume
    revived limits_for get sort_by insert_by
resumed_against_the_pause = refl

abbrev nothing_yet : Reconciled
nothing_yet = record { paused_count = 0; resumed_count = 0; accounts = 0 }

over : 0 < (owner_row (tables up) customer).active_checks
over = omega arith

reconcile_owner-limit_example :
    length (
      filter
        (active (tables up) 1)
        (reconcile_owner 1000
          (owner_row (tables up) customer)
          (some 0)
          (tables up, nothing_yet)).0.checks)
    ≡ 0
reconcile_owner-limit_example =
    reconcile_owner-limit 1000 0 (tables up) customer nothing_yet (refl, tt) over

reconcile_owner-forgets_pause_example :
    let t =
      reconcile_owner 1000
        (owner_row (tables paused) customer)
        (some 0)
        (tables paused, nothing_yet) in
    In
      (resume_row 2000 (pause_row 1000 (check_in paused)))
      (reconcile_owner 2000 (owner_row t.0 customer) none t).0.checks
reconcile_owner-forgets_pause_example =
    reconcile_owner-forgets_pause 1000 2000 (tables paused) customer nothing_yet (check_in paused)
      (inl refl) refl refl refl
