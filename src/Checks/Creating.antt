-- ===== src/Checks/Creating.antt =====
-- `create` of checks/checks.service.ts, with what a client may ask of a list of checks. A ping key
-- is given by the database: `ping_key_of` an id. `normalise` and `lower` fold a name, `fallback` and
-- `random` are random characters (common/slug.util.ts).
use silence_watch.Checks.{
  ChecksDb, ChecksError, next_due_or_throw, or_else, over_quota, to_schedule,
}
use silence_watch.Slugs.{unique_slug}
use silence_watch.Quotas.Enforcer.{EnforcerDb}
use silence_watch.Checks.Requests.{CreateCheckRequest}
use silence_watch.Quotas.{QuotaConfig, QuotaDb, QuotaExceeded, assert_can_add_check}
use silence_watch.Tables.{Check, CheckState, api, is_none, mem, new, state_eq}
use silence_watch.Schedule.{Cron}
use silence_watch.Prelude.{
  Bool, List, Option, Result, Text, [], any, err, if◌then◌else◌, map, nat_eq, none, not, ok,
  option_eq, some, text_eq, text_keys, true, ℕ, ◌&&◌, ◌++◌, ◌+◌, ◌==◌, ◌∷◌,
}

-- The tables that the quota reads; channels do not count for a check.
abbrev pub quota_db : EnforcerDb → QuotaDb
quota_db db = record {
  members = db.members;
  users = db.users;
  check_projects = map (λ (c : Check). c.project_id) db.checks;
  channel_projects = [];
}

unfoldable pub is_slug_taken : ℕ → List Check → Text → Bool
is_slug_taken project checks slug =
    any (λ (c : Check). c.project_id == project && text_eq c.slug slug) checks

module _ (ping_key_of : ℕ → Text) (normalise lower : Text → Text) (fallback random : Text) where
  unfoldable pub slug_for : ℕ → CreateCheckRequest → List Check → Text
  slug_for project input checks =
      unique_slug normalise lower fallback random (or_else input.slug input.name)
        (is_slug_taken project checks)

  unfoldable pub new_check : ℕ → ℕ → CreateCheckRequest → ℕ → ChecksDb → Check
  new_check now project input due db = record {
    id = db.next_id;
    project_id = project;
    name = input.name;
    slug = slug_for project input db.tables.checks;
    key = none;
    ping_key = ping_key_of db.next_id;
    ping_key_rotated_at = none;
    schedule = to_schedule input.schedule;
    grace_seconds = input.grace_seconds;
    state = new;
    paused_reason = none;
    last_ping_at = none;
    last_started_at = none;
    last_duration_ms = none;
    next_due_at = some due;
    source = api;
    environment = input.environment;
    tags = or_else input.tags [];
    description = input.description;
    orphaned_at = none;
    created_at = now;
    updated_at = now;
  }

  abbrev pub inserted :
      ℕ
      → ℕ
      → CreateCheckRequest
      → ChecksDb
      → Result ChecksError ℕ
      → ChecksDb × Result ChecksError Check
  inserted now project input db (err e) = (db, err e)
  inserted now project input db (ok due) =
      let c = new_check now project input due db in
      (
        record db {
          tables = record db.tables { checks = db.tables.checks ++ c ∷ [] };
          next_id = db.next_id + 1;
        },
        ok c,
      )

  abbrev pub within_quota :
      Cron
      → ℕ
      → ℕ
      → CreateCheckRequest
      → ChecksDb
      → Result QuotaExceeded (Unit {0})
      → ChecksDb × Result ChecksError Check
  within_quota next now project input db (err e) = (db, err (over_quota e))
  within_quota next now project input db (ok done) =
      inserted now project input db (next_due_or_throw next (to_schedule input.schedule) now)

  unfoldable pub create :
      QuotaConfig
      → Cron
      → ℕ
      → ℕ
      → CreateCheckRequest
      → ChecksDb
      → ChecksDb × Result ChecksError Check
  create cfg next now project input db =
      within_quota next now project input db (assert_can_add_check cfg project (quota_db db.tables))

-- The clauses of `list`, but for the page. `contains` is the search that ignores case.
pub record ListChecksQuery : Type 0 where
  pub state : Option CheckState
  pub environment : Option Text
  pub tag : Option Text
  pub is_orphaned : Option Bool
  pub search : Option Text

abbrev holds {ℓ} : {A : Type ℓ} → Option A → (A → Bool) → Bool
holds none p = true
holds (some a) p = p a

unfoldable pub listed : (Text → Text → Bool) → List ℕ → ListChecksQuery → Check → Bool
listed contains projects q c =
    mem c.project_id projects
    && (holds q.state (λ s. state_eq c.state s)
        && (holds q.environment (λ e. option_eq c.environment (some e))
            && (holds q.tag (λ t. any (text_eq t) c.tags)
                && (holds q.is_orphaned
                      (λ b. if b then not (is_none c.orphaned_at) else is_none c.orphaned_at)
                    && holds q.search (λ s. contains c.name s)))))
