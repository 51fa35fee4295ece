-- ===== src/Sync.antt =====
-- checks/check-sync.repository.ts and the plan ceiling of checks/check-sync.service.ts: the checks
-- that a client declares at its start. A ping key is given by the database: `ping_key_of` an id.
pub mod Laws
pub mod Declaring
pub mod Ceiling
mod Examples
use silence_watch.Prelude.Int.{negsuc, pos, ℤ}
use silence_watch.Prelude.{
  Bool, List, Option, Text, [], any, drop, false, filter, if◌then◌else◌, leb, length, map, nat_eq,
  none, not, some, text_eq, text_keys, true, ℕ, ◌&&◌, ◌++◌, ◌+◌, ◌==◌, ◌∷◌,
}
use silence_watch.Schedule.{Schedule, ScheduleType, cron, interval}
use silence_watch.Tables.{Check, CheckSource, auto, is_none, new}

pub record SyncRow : Type 0 where
  pub key : Text
  pub name : Text
  pub slug : Text
  pub schedule : Schedule
  pub grace_seconds : ℕ
  pub tags : List Text
  pub next_due_at : ℕ

pub record UpsertedCheck : Type 0 where
  pub id : ℕ
  pub key : Text
  pub ping_key : Text
  pub created : Bool

-- `COALESCE(environment, '')`.
abbrev pub or_empty : Option Text → Text
or_empty none = []
or_empty (some e) = e

abbrev pub has_key : Option Text → Text → Bool
has_key none key = false
has_key (some k) key = text_eq k key

-- The conflict target of UPSERT_SQL.
unfoldable pub same_check : ℕ → Option Text → Text → Check → Bool
same_check project environment key c =
    c.project_id == project
    && has_key c.key key
    && text_eq (or_empty c.environment) (or_empty environment)

abbrev pub type_eq : ScheduleType → ScheduleType → Bool
type_eq interval interval = true
type_eq cron cron = true
type_eq _ _ = false

abbrev pub period_eq : Option ℤ → Option ℤ → Bool
period_eq none none = true
period_eq (some (pos a)) (some (pos b)) = a == b
period_eq (some (negsuc a)) (some (negsuc b)) = a == b
period_eq _ _ = false

abbrev pub text_option_eq : Option Text → Option Text → Bool
text_option_eq none none = true
text_option_eq (some a) (some b) = text_eq a b
text_option_eq _ _ = false

-- No column of the schedule is DISTINCT FROM that of the row.
unfoldable pub same_schedule : Schedule → Schedule → Bool
same_schedule s t =
    type_eq s.schedule_type t.schedule_type
    && period_eq s.period_seconds t.period_seconds
    && text_option_eq s.cron_expression t.cron_expression
    && text_eq s.timezone t.timezone

-- DO UPDATE SET.
unfoldable pub update_declared : ℕ → SyncRow → Check → Check
update_declared now row c = record c {
  name = row.name;
  schedule = row.schedule;
  grace_seconds = row.grace_seconds;
  tags = row.tags;
  orphaned_at = none;
  updated_at = now;
  next_due_at =
      if same_schedule c.schedule row.schedule then c.next_due_at else some row.next_due_at;
}

unfoldable pub new_declared : (ℕ → Text) → ℕ → ℕ → ℕ → Option Text → SyncRow → Check
new_declared ping_key_of now id project environment row = record {
  id = id;
  project_id = project;
  name = row.name;
  slug = row.slug;
  key = some row.key;
  ping_key = ping_key_of id;
  ping_key_rotated_at = none;
  schedule = row.schedule;
  grace_seconds = row.grace_seconds;
  state = new;
  paused_reason = none;
  last_ping_at = none;
  last_started_at = none;
  last_duration_ms = none;
  next_due_at = some row.next_due_at;
  source = auto;
  environment = environment;
  tags = row.tags;
  description = none;
  orphaned_at = none;
  created_at = now;
  updated_at = now;
}

-- One row of UPSERT_SQL.
unfoldable pub upsert_row :
    (ℕ → Text) → ℕ → ℕ → Option Text → SyncRow → List Check × ℕ → List Check × ℕ
upsert_row ping_key_of now project environment row (checks, next_id) =
    let same = same_check project environment row.key in
    if any same checks
    then (map (λ c. if same c then update_declared now row c else c) checks, next_id)
    else (checks ++ new_declared ping_key_of now next_id project environment row ∷ [], next_id + 1)

unfoldable pub upsert_rows :
    (ℕ → Text) → ℕ → ℕ → Option Text → List SyncRow → List Check × ℕ → List Check × ℕ
upsert_rows ping_key_of now project environment [] acc = acc
upsert_rows ping_key_of now project environment (r ∷ rows) acc =
    upsert_rows ping_key_of now project environment rows
      (upsert_row ping_key_of now project environment r acc)

abbrev pub is_auto : CheckSource → Bool
is_auto auto = true
is_auto _ = false

abbrev pub key_outside : Option Text → List Text → Bool
key_outside none keys = false
key_outside (some k) keys = not (any (text_eq k) keys)

-- The rows of ORPHAN_SQL.
unfoldable pub orphaned : ℕ → Option Text → List Text → Check → Bool
orphaned project environment keys c =
    c.project_id == project
    && is_auto c.source
    && is_none c.orphaned_at
    && text_option_eq c.environment environment
    && key_outside c.key keys

unfoldable pub orphan : ℕ → ℕ → Option Text → List Text → List Check → List Check
orphan now project environment keys = map λ c.
    if orphaned project environment keys c
    then record c { orphaned_at = some now; updated_at = now }
    else c

abbrev pub orphan_scope : ℕ → ℕ → Option Text → Option (List Text) → List Check → List Check
orphan_scope now project environment none checks = checks
orphan_scope now project environment (some keys) checks = orphan now project environment keys checks

-- `upsert`: both statements, in one transaction.
unfoldable pub upsert :
    (ℕ → Text)
    → ℕ
    → ℕ
    → Option Text
    → List SyncRow
    → Option (List Text)
    → List Check × ℕ
    → List Check × ℕ
upsert ping_key_of now project environment accepted scope acc =
    let (checks, next_id) = upsert_rows ping_key_of now project environment accepted acc in
    (orphan_scope now project environment scope checks, next_id)

unfoldable pub find_existing_keys : ℕ → List Text → Option Text → List Check → List Text
find_existing_keys project keys environment [] = []
find_existing_keys project keys environment (c ∷ cs) =
    let rest = find_existing_keys project keys environment cs in
    elim c.key [
      | none ↦ rest
      | some k ↦
          if c.project_id == project
            && (any (text_eq k) keys && text_option_eq c.environment environment)
          then k ∷ rest
          else rest
    ]

-- `applyCheckQuota`: the keys that must not be created, for what remains of the plan.
abbrev pub skipped_of : List Text → Option ℕ → List Text
skipped_of would_create none = []
skipped_of would_create (some remaining) =
    if leb (length would_create) remaining then [] else drop remaining would_create

unfoldable pub apply_check_quota :
    ℕ → Option Text → Option ℕ → List SyncRow → List Check → List Text
apply_check_quota project environment remaining rows checks =
    let keys = map (λ (r : SyncRow). r.key) rows in
    let known = find_existing_keys project keys environment checks in
    skipped_of (filter (λ k. not (any (text_eq k) known)) keys) remaining
