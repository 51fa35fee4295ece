-- ===== src/Quotas.antt =====
-- quotas/quota.service.ts: plan limits, and where they bite. `serialised` runs one request after
-- another, so requests of one account are a sequence here.
pub mod Limits
pub mod Serial
pub mod Enforcer
mod Examples
use silence_watch.Prelude.{
  Bool, List, Option, Result, Text, [], any, err, false, filter, if◌then◌else◌, length, ltb, min,
  nat_eq, none, ok, some, text_keys, true, ℕ, ◌&&◌, ◌+◌, ◌-◌, ◌==◌, ◌∷◌,
}
use silence_watch.OrderedMap.{get}

pub record PlanLimits : Type 0 where
  pub checks : Option ℕ
  pub projects : Option ℕ
  pub channels_per_project : Option ℕ
  pub retention_days : Option ℕ

abbrev pub unlimited : PlanLimits
unlimited = record {
  checks = none;
  projects = none;
  channels_per_project = none;
  retention_days = none;
}

pub record QuotaConfig : Type 0 where
  pub quotas_enabled : Bool
  pub default_plan : Text
  pub plan_limits : List (Text × PlanLimits)

pub data QuotaResource : Type 0 where
  checks_quota projects_quota channels_quota : QuotaResource

pub data Role : Type 0 where
  owner admin member : Role

pub record Membership : Type 0 where
  pub project_id : ℕ
  pub user_id : ℕ
  pub role : Role

pub record Account : Type 0 where
  pub id : ℕ
  pub plan : Option Text

-- The tables that quotas read; a check and a channel are their projects here.
pub record QuotaDb : Type 0 where
  pub members : List Membership
  pub users : List Account
  pub check_projects : List ℕ
  pub channel_projects : List ℕ

pub record QuotaExceeded : Type 0 where
  pub resource : QuotaResource
  pub used : ℕ
  pub limit : ℕ
  pub plan : Option Text

unfoldable pub default_plan_of : QuotaConfig → Option Text
default_plan_of cfg = if cfg.quotas_enabled then some cfg.default_plan else none

abbrev pub or_unlimited : Option PlanLimits → PlanLimits
or_unlimited none = unlimited
or_unlimited (some limits) = limits

unfoldable pub limits_for : QuotaConfig → Option Text → PlanLimits
limits_for cfg none = unlimited
limits_for cfg (some plan) =
    if cfg.quotas_enabled then or_unlimited (get plan cfg.plan_limits) else unlimited

abbrev pub is_owner : Role → Bool
is_owner owner = true
is_owner _ = false

abbrev pub find_user : ℕ → List Account → Option Account
find_user id [] = none
find_user id (u ∷ us) = if u.id == id then some u else find_user id us

-- The owner's membership of a project; the account is joined by its foreign key.
abbrev pub find_owner : ℕ → List Membership → Option ℕ
find_owner project [] = none
find_owner project (m ∷ ms) =
    if m.project_id == project && is_owner m.role then some m.user_id else find_owner project ms

abbrev pub joined_user : List Account → Option ℕ → Option Account
joined_user users none = none
joined_user users (some id) = find_user id users

unfoldable pub owner_of : ℕ → QuotaDb → Option Account
owner_of project db = joined_user db.users (find_owner project db.members)

abbrev pub plan_of : Option Account → Option Text
plan_of none = none
plan_of (some u) = u.plan

unfoldable pub limits_for_project : QuotaConfig → ℕ → QuotaDb → PlanLimits
limits_for_project cfg project db =
    if cfg.quotas_enabled then limits_for cfg (plan_of (owner_of project db)) else unlimited

abbrev pub owns : List Membership → ℕ → ℕ → Bool
owns ms user project =
    any (λ (m : Membership). m.project_id == project && (m.user_id == user && is_owner m.role)) ms

unfoldable pub count_owned_checks : ℕ → QuotaDb → ℕ
count_owned_checks user db = length (filter (owns db.members user) db.check_projects)

unfoldable pub count_owned_projects : ℕ → QuotaDb → ℕ
count_owned_projects user db =
    length (filter (λ (m : Membership). m.user_id == user && is_owner m.role) db.members)

unfoldable pub count_channels : ℕ → QuotaDb → ℕ
count_channels project db = length (filter (λ p. p == project) db.channel_projects)

-- The test that the three assertions share.
abbrev pub within : QuotaResource → ℕ → Option Text → Option ℕ → Result QuotaExceeded (Unit {0})
within resource used plan none = ok tt
within resource used plan (some limit) =
    if ltb limit (used + 1)
    then err (record { resource = resource; used = used; limit = limit; plan = plan })
    else ok tt

check_room : QuotaConfig → QuotaDb → Option Account → Result QuotaExceeded (Unit {0})
check_room cfg db none = ok tt
check_room cfg db (some u) =
    within checks_quota (count_owned_checks u.id db) u.plan (limits_for cfg u.plan).checks

unfoldable pub assert_can_add_check : QuotaConfig → ℕ → QuotaDb → Result QuotaExceeded (Unit {0})
unfolding check_room
assert_can_add_check cfg project db =
    if cfg.quotas_enabled then check_room cfg db (owner_of project db) else ok tt

-- `Math.max(0, limit - used)`.
abbrev pub left_of : ℕ → Option ℕ → Option ℕ
left_of used none = none
left_of used (some limit) = some (limit - used)

checks_left : QuotaConfig → QuotaDb → Option Account → Option ℕ
checks_left cfg db none = none
checks_left cfg db (some u) = left_of (count_owned_checks u.id db) (limits_for cfg u.plan).checks

unfoldable pub remaining_checks : QuotaConfig → ℕ → QuotaDb → Option ℕ
unfolding checks_left
remaining_checks cfg project db =
    if cfg.quotas_enabled then checks_left cfg db (owner_of project db) else none

unfoldable pub assert_can_add_project : QuotaConfig → ℕ → QuotaDb → Result QuotaExceeded (Unit {0})
assert_can_add_project cfg user db =
    let plan = plan_of (find_user user db.users) in
    if cfg.quotas_enabled
    then within projects_quota (count_owned_projects user db) plan (limits_for cfg plan).projects
    else ok tt

unfoldable pub assert_can_add_channel : QuotaConfig → ℕ → QuotaDb → Result QuotaExceeded (Unit {0})
assert_can_add_channel cfg project db =
    let plan = plan_of (owner_of project db) in
    if cfg.quotas_enabled
    then within channels_quota (count_channels project db) plan
        (limits_for cfg plan).channels_per_project
    else ok tt

abbrev pub capped_by : Option ℕ → ℕ → ℕ
capped_by none requested = requested
capped_by (some ceiling) requested = min requested ceiling

unfoldable pub retention_days_for : QuotaConfig → ℕ → ℕ → QuotaDb → ℕ
retention_days_for cfg project requested db =
    capped_by (limits_for_project cfg project db).retention_days requested

unfoldable pub usage_of : ℕ → QuotaDb → ℕ × ℕ
usage_of user db = (count_owned_checks user db, count_owned_projects user db)
