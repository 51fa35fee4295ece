-- ===== src/Quotas/Examples.antt =====
-- One account on a plan of two checks.
use silence_watch.Prelude.{
  Bool, [], arith, nat_eq, refl, some, text, text_keys, true, ℕ, ◌∷◌, ◌≡◌, ◌≤◌,
}
use silence_watch.OrderedMap.{get}
use silence_watch.Quotas.{
  Account, PlanLimits, QuotaConfig, QuotaDb, checks_left, count_owned_checks, limits_for, owner,
  owner_of, owns, remaining_checks,
}
use silence_watch.Quotas.Serial.{IsLimited, count-create_checks, create_checks}

abbrev small : PlanLimits
small = record {
  checks = some 2;
  projects = some 1;
  channels_per_project = some 1;
  retention_days = some 7;
}

abbrev config_of : Bool → QuotaConfig
config_of on = record {
  quotas_enabled = on;
  default_plan = text "small";
  plan_limits = (text "small", small) ∷ [];
}

abbrev customer : Account
customer = record { id = 1; plan = some (text "small") }

abbrev tables : QuotaDb
tables = record {
  members = record { project_id = 7; user_id = 1; role = owner } ∷ [];
  users = customer ∷ [];
  check_projects = 7 ∷ [];
  channel_projects = [];
}

one_left : remaining_checks (config_of true) 7 tables ≡ some 1
unfolding remaining_checks checks_left owner_of count_owned_checks limits_for get
one_left = refl

limited : IsLimited (config_of true) tables customer 2
unfolding limits_for get owner_of
limited = (refl, refl, λ project mine. own project mine)
  where
    own :
        (project : ℕ)
        → owns tables.members 1 project ≡ true
        → owner_of project tables ≡ some customer
    own project mine = ground arith

fits : count_owned_checks 1 tables ≤ 2
unfolding count_owned_checks
fits = omega arith

count-create_checks_example :
    count_owned_checks 1 (create_checks (config_of true) (7 ∷ 7 ∷ 7 ∷ []) tables) ≤ 2
count-create_checks_example =
    count-create_checks (config_of true) (7 ∷ 7 ∷ 7 ∷ []) tables customer 2 limited fits
