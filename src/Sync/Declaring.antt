-- ===== src/Sync/Declaring.antt =====
-- checks/check-sync.service.ts: the rows that a payload declares, and the whole of a sync.
use silence_watch.Slugs.{sync_slug}
use silence_watch.Prelude.Int.{pos}
use silence_watch.Prelude.{
  Bool, List, Option, Result, Text, [], any, err, filter, if◌then◌else◌, map, map_err, nat_eq, none,
  not, ok, some, text, text_eq, text_keys, ℕ, ◌>>=◌, ◌∷◌,
}
use silence_watch.Schedule.{
  Cron, InvalidScheduleError, Schedule, compute_next_due_at, cron, interval,
}
use silence_watch.Tables.{Check}
use silence_watch.Sync.{SyncRow, apply_check_quota, upsert}

pub record SyncCheck : Type 0 where
  pub key : Text
  pub name : Text
  pub cron_text : Option Text
  pub interval_seconds : ℕ
  pub timezone : Option Text
  pub grace_seconds : Option ℕ
  pub tags : List Text

pub record SyncRequest : Type 0 where
  pub environment : Option Text
  pub prune : Bool
  pub declared : List SyncCheck

pub data SyncError : Type 0 where
  duplicate_key : Text → SyncError
  bad_schedule : Text → InvalidScheduleError → SyncError

abbrev or_utc : Option Text → Text
or_utc none = text "UTC"
or_utc (some zone) = zone

abbrev or_default_grace : Option ℕ → ℕ
or_default_grace none = 300
or_default_grace (some seconds) = seconds

-- The schema lets exactly one of the cron expression and the interval through.
abbrev pub declared_schedule : SyncCheck → Option Text → Schedule
declared_schedule incoming none = record {
  schedule_type = interval;
  period_seconds = some (pos incoming.interval_seconds);
  cron_expression = none;
  timezone = or_utc incoming.timezone;
}
declared_schedule incoming (some expression) = record {
  schedule_type = cron;
  period_seconds = none;
  cron_expression = some expression;
  timezone = or_utc incoming.timezone;
}

-- The arguments of `sync_slug`: `fallback` gives the random text for a key.
module _ (next : Cron) (normalise lower sha256 : Text → Text) (fallback : Text → Text) where
  -- The row of one declared check.
  abbrev pub declared_row : ℕ → Option Text → SyncCheck → Result SyncError SyncRow
  declared_row now environment incoming =
      let schedule = declared_schedule incoming incoming.cron_text in
      map_err (bad_schedule incoming.key) (compute_next_due_at next schedule now) >>= λ due.
      ok record {
        key = incoming.key;
        name = incoming.name;
        slug =
            sync_slug normalise lower sha256 (fallback incoming.key) incoming.name incoming.key
              environment;
        schedule = schedule;
        grace_seconds = or_default_grace incoming.grace_seconds;
        tags = incoming.tags;
        next_due_at = due;
      }

  -- The rows of a payload, behind the keys that were seen.
  unfoldable pub declared_rows :
      ℕ → Option Text → List Text → List SyncCheck → Result SyncError (List SyncRow)
  declared_rows now environment seen [] = ok []
  declared_rows now environment seen (c ∷ cs) =
      let rest = declared_rows now environment (c.key ∷ seen) cs in
      if any (text_eq c.key) seen
      then err (duplicate_key c.key)
      else declared_row now environment c >>= λ row. rest >>= λ rows. ok (row ∷ rows)

  -- `syncWithinQuota`, for what remains of the plan: the keys that were skipped, and the checks.
  unfoldable pub sync_within_quota :
      (ℕ → Text)
      → ℕ
      → ℕ
      → Option ℕ
      → SyncRequest
      → List Check × ℕ
      → Result SyncError (List Text × (List Check × ℕ))
  sync_within_quota ping_key_of now project remaining request acc =
      declared_rows now request.environment [] request.declared >>= λ rows.
      let skipped = apply_check_quota project request.environment remaining rows acc.0 in
      let accepted = filter (λ (row : SyncRow). not (any (text_eq row.key) skipped)) rows in
      let keys = map (λ (row : SyncRow). row.key) rows in
      let scope = if request.prune then some keys else none in
      ok (skipped, upsert ping_key_of now project request.environment accepted scope acc)
