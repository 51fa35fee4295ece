-- ===== src/Ingest.antt =====
-- ingest/ingest.service.ts and ingest/ingest.plugin.ts: one heartbeat, from the request to the
-- response. `arrived` is the clock when the call comes in, `received_at` the clock once the check
-- is known. The database, Node's UTF-8 decoder and `cron-parser` are arguments.
pub mod Sql
pub mod Values
pub mod Routes
pub mod Laws
pub mod Recording
pub mod Answers
pub mod Columns
mod Examples
use silence_watch.RateLimiter
use silence_watch.Cache
use silence_watch.Prelude.{
  List, Option, Result, Text, [], err, if◌then◌else◌, ltb, nat_eq, none, not, ok, some, suc,
  text_keys, zero, ℕ, ◌∷◌,
}
use silence_watch.Prelude.Int.{pos}
use silence_watch.RateLimiter.{RateLimiter, exceeded, hit, new}
use silence_watch.Schedule.{Cron, InvalidScheduleError, Schedule, compute_next_due_at}
use silence_watch.Tables.{Check, Db, PingKind, fail, start, success}
use silence_watch.Cache.{
  Cache, CheckMetadata, Lookup, empty, finish_load, get_cached, joined, load, loading, peek, served,
}
use Sql.{IngestValues, ingest_sql}
use Values.{Number, clamp_int, int32_min, is_uuid, normalise_ip, to_lower, truncate, truncate_body}

pub record IngestCommand : Type 0 where
  pub ping_key : Text
  pub kind : PingKind
  pub exit_code : Option Number
  pub duration_ms : Option Number
  pub body : Option (List ℕ)
  pub ip : Option Text
  pub user_agent : Option Text

pub data IngestOutcome : Type 0 where
  recorded not_watched unknown rate_limited invalid : IngestOutcome

pub record Service : Type 0 where
  pub per_key_limiter : RateLimiter Text
  pub unknown_key_limiter : RateLimiter Text
  pub cache : Cache
  pub max_body_bytes : ℕ

-- What the service does not implement.
pub record Runtime : Type 0 where
  pub next : Cron
  pub decode : List ℕ → Text

abbrev pub max_user_agent_length : ℕ
max_user_agent_length = 300

pub new_service : ℕ → ℕ → Service
unfolding RateLimiter.new
new_service ping_rate_limit_per_minute ping_body_max_bytes = record {
  per_key_limiter = RateLimiter.new ping_rate_limit_per_minute 60000 100000;
  unknown_key_limiter = RateLimiter.new 60 60000 20000;
  cache = Cache.empty;
  max_body_bytes = ping_body_max_bytes;
}

-- "unknown", for a request that shows no address.
source_of : Option Text → Text
source_of none = b'u' ∷ b'n' ∷ b'k' ∷ b'n' ∷ b'o' ∷ b'w' ∷ b'n' ∷ []
source_of (some ip) = ip

-- An unusable schedule leaves the deadline out and still records the ping.
due_or_null : Result InvalidScheduleError ℕ → Option ℕ
due_or_null (ok t) = some t
due_or_null (err x) = none

next_due : Runtime → PingKind → Schedule → ℕ → Option ℕ
unfolding due_or_null
next_due rt start s received_at = none
next_due rt success s received_at = due_or_null (compute_next_due_at rt.next s received_at)
next_due rt fail s received_at = due_or_null (compute_next_due_at rt.next s received_at)

abbrev pub outcome_of : ℕ → IngestOutcome
outcome_of zero = not_watched
outcome_of (suc n) = recorded

pub values_of : Runtime → Service → IngestCommand → Text → CheckMetadata → ℕ → IngestValues
unfolding next_due
values_of rt s command key m received_at = record {
  ping_key = key;
  received_at = received_at;
  kind = command.kind;
  exit_code = clamp_int command.exit_code int32_min;
  duration_ms = clamp_int command.duration_ms (pos 0);
  next_due_at = next_due rt command.kind m.schedule received_at;
  body = truncate_body rt.decode s.max_body_bytes command.body;
  source_ip = normalise_ip command.ip;
  user_agent = truncate command.user_agent max_user_agent_length;
}

abbrev State : Type 0
State = Service × Db

-- The write, once the check is known.
write : Runtime → State → IngestCommand → Text → CheckMetadata → ℕ → State × IngestOutcome
unfolding values_of
write rt (s, db) command key m received_at =
    let (db', rows) = ingest_sql (values_of rt s command key m received_at) db in
    ((s, db'), outcome_of rows)

-- `unknownKeyLimiter.hit`, after a lookup that found nothing.
charge : Service → Text → ℕ → Service
charge s source now = record s {
  unknown_key_limiter = (RateLimiter.hit s.unknown_key_limiter source now).0;
}

-- What follows `await this.cache.get(pingKey)`.
after_get :
    Runtime → State → IngestCommand → Text → Text → ℕ → Option CheckMetadata → State × IngestOutcome
unfolding write charge
after_get rt (s, db) command key source received_at none =
    ((charge s source received_at, db), unknown)
after_get rt (s, db) command key source received_at (some m) =
    write rt (s, db) command key m received_at

-- `cache.get`: a fresh entry answers; otherwise the database is asked. The request that started
-- the load stores the answer; one that joined it is handed the same answer.
resolve : Service → List Check → Text → ℕ → Cache × Lookup → Service × Option CheckMetadata
resolve s checks key now (c, served m) = (record s { cache = c }, m)
resolve s checks key now (c, joined) = (record s { cache = c }, load checks key)
resolve s checks key now (c, loading) =
    (record s { cache = finish_load c key (load checks key) now }, load checks key)

-- What follows `this.cache.peek(pingKey)`.
after_peek :
    Runtime
    → State
    → IngestCommand
    → Text
    → Text
    → ℕ
    → ℕ
    → Option CheckMetadata
    → State × IngestOutcome
unfolding after_get resolve
after_peek rt (s, db) command key source arrived received_at (some m) =
    write rt (s, db) command key m received_at
after_peek rt (s, db) command key source arrived received_at none =
    if RateLimiter.exceeded s.unknown_key_limiter source arrived
    then ((s, db), rate_limited)
    else let (s', m) = resolve s db.checks key received_at (get_cached s.cache key arrived) in
      after_get rt (s', db) command key source received_at m

-- What follows the limiter of the key.
after_limit : Runtime → State → IngestCommand → Text → ℕ → ℕ → State × IngestOutcome
unfolding after_peek source_of
after_limit rt (s, db) command key arrived received_at =
    after_peek rt (s, db) command key (source_of command.ip) arrived received_at
      (peek s.cache key arrived)

unfoldable pub ingest : Runtime → State → IngestCommand → ℕ → ℕ → State × IngestOutcome
unfolding after_limit
ingest rt (s, db) command arrived received_at =
    let key = to_lower command.ping_key in
    let (limiter, delay) = RateLimiter.hit s.per_key_limiter key arrived in
    let s' = record s { per_key_limiter = limiter } in
    if not (is_uuid command.ping_key)
    then ((s, db), invalid)
    else if ltb 0 delay
    then ((s', db), rate_limited)
    else after_limit rt (s', db) command key arrived received_at
