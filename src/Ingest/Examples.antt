-- ===== src/Ingest/Examples.antt =====
-- Heartbeats of one check, sent to a service with an empty cache.
use silence_watch.Ingest.Answers.{ingest-cached}
use silence_watch.OrderedMap.{delete, get, set}
use silence_watch.Cache.{finish_load, get_cached, load, peek}
use silence_watch.Prelude.Int.{pos}
use silence_watch.Ingest.Sql.{ingest_sql}
use silence_watch.RateLimiter.{exceeded, hit}
use silence_watch.Ingest.Columns.{Fits, values_of-Fits}
use silence_watch.Ingest.Recording.{Recorded, ingest-paused, ingest-recorded, pings_of}
use silence_watch.Schedule.{Schedule, interval}
use silence_watch.Ingest.{IngestCommand, Runtime, Service, ingest, not_watched, recorded, values_of}
use silence_watch.Ingest.Values.{is_uuid, to_lower}
use silence_watch.Tables.{Check, Db, PingKind, api, fail, late, paused, start, success}
use silence_watch.Prelude.{
  In, Text, [], arith, inl, nat_eq, none, refl, some, text, text_keys, ◌∷◌, ◌≡◌, ◌⊎◌,
}

abbrev silent : Runtime
silent = record { next = λ e tz from. none; decode = λ bytes. bytes }

abbrev key : Text
key = text "0b1f7a52-93c4-4d1e-8f60-5a2b3c4d5e6f"

abbrev hourly : Schedule
hourly = record {
  schedule_type = interval;
  period_seconds = some (pos 3600);
  cron_expression = none;
  timezone = [];
}

abbrev watched : Check
watched = record {
  id = 1;
  project_id = 7;
  name = text "backup";
  slug = text "backup";
  key = none;
  ping_key = key;
  ping_key_rotated_at = none;
  schedule = hourly;
  grace_seconds = 300;
  state = late;
  paused_reason = none;
  last_ping_at = none;
  last_started_at = some 1000;
  last_duration_ms = none;
  next_due_at = some 5000;
  source = api;
  environment = none;
  tags = [];
  description = none;
  orphaned_at = none;
  created_at = 0;
  updated_at = 0;
}

abbrev db_of : Check → Db
db_of c = record {
  checks = c ∷ [];
  pings = [];
  incidents = [];
  channels = [];
  deliveries = [];
  next_id = 1;
}

abbrev call : PingKind → IngestCommand
call kind = record {
  ping_key = key;
  kind = kind;
  exit_code = none;
  duration_ms = none;
  body = some (b'o' ∷ 0 ∷ b'k' ∷ []);
  ip = none;
  user_agent = none;
}

abbrev service : Service
service = record {
  per_key_limiter = record { limit = 10; window_ms = 60000; max_keys = 100; windows = [] };
  unknown_key_limiter = record { limit = 60; window_ms = 60000; max_keys = 100; windows = [] };
  cache = record { entries = []; in_flight = []; hits = 0; misses = 0 };
  max_body_bytes = 100;
}

abbrev warm : Service
warm = record service {
  cache = record service.cache {
    entries =
        (key, record { metadata = some (record { id = 1; schedule = hourly }); expires_at = 10000 })
        ∷ [];
  };
}

late_recorded : (ingest silent (service, db_of watched) (call success) 6000 6000).1 ≡ recorded
unfolding ingest ingest_sql hit get set delete exceeded peek get_cached finish_load load is_uuid
    to_lower
late_recorded = refl

ingest-recorded_example :
    Recorded
      (call success)
      6000
      (db_of watched)
      (ingest silent (service, db_of watched) (call success) 6000 6000).0.1
ingest-recorded_example =
    ingest-recorded silent service (db_of watched) (call success) 6000 6000 late_recorded

abbrev off : Check
off = record watched { state = paused }

ingest-paused_example :
    let after = (ingest silent (service, db_of off) (call fail) 6000 6000).0.1 in
    In off after.checks × (pings_of 1 after.pings ≡ [])
ingest-paused_example =
    ingest-paused silent service (db_of off) (call fail) 6000 6000 off (inl refl) refl
      ((λ e. refl), tt)

ingest-cached_example :
    let o = (ingest silent (warm, db_of watched) (call success) 6000 6000).1 in
    (o ≡ recorded) ⊎ (o ≡ not_watched)
unfolding is_uuid to_lower hit peek get
ingest-cached_example =
    ingest-cached silent warm (db_of watched) (call success) 6000 6000
      (record { id = 1; schedule = hourly }) refl refl refl

abbrev gone : Db
gone = record (db_of watched) { checks = [] }

-- A body of three bytes, one of which is a NUL.
abbrev with_body : IngestCommand
with_body = record (call start) { body = some (111 ∷ 0 ∷ 107 ∷ []) }

values_of-Fits_example :
    Fits 100 (values_of silent service with_body key (record { id = 1; schedule = hourly }) 6000)
values_of-Fits_example =
    values_of-Fits silent service with_body key (record { id = 1; schedule = hourly }) 6000
      (λ bytes. omega arith)
