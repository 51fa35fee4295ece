-- ===== src/Ingest/Sql.antt =====
-- INGEST_SQL of ingest/ingest.service.ts: the one statement that records a heartbeat.
use silence_watch.Prelude.{
  Bool, Option, Text, filter, if◌then◌else◌, length, map, min, nat_eq, none, not, some, text_eq,
  text_keys, ℕ, ◌&&◌, ◌++◌, ◌-◌,
}
use silence_watch.Prelude.Int.{pos, ℤ}
use silence_watch.Tables.{
  Check, Db, Ping, PingKind, down, fail, paused, start, state_eq, success, up,
}

-- The statement's parameters, $1 to $9.
pub record IngestValues : Type 0 where
  pub ping_key : Text
  pub received_at : ℕ
  pub kind : PingKind
  pub exit_code : Option ℤ
  pub duration_ms : Option ℤ
  pub next_due_at : Option ℕ
  pub body : Option Text
  pub source_ip : Option Text
  pub user_agent : Option Text

abbrev pub int32_max : ℕ
int32_max = 2147483647

-- A time of arrival before the start, which GREATEST lifts to 0, is what `-` stops at.
elapsed : Option ℕ → ℕ → Option ℤ
elapsed none received = none
elapsed (some started) received = some (pos (min int32_max (received - started)))

reported_or : Option ℤ → Option ℤ → Option ℤ
reported_or (some d) other = some d
reported_or none other = other

-- `measured`: the duration of this run.
measured : PingKind → Option ℤ → Option ℕ → ℕ → Option ℤ
unfolding elapsed reported_or
measured start duration started received = none
measured success duration started received = reported_or duration (elapsed started received)
measured fail duration started received = reported_or duration (elapsed started received)

-- `prev`: the rows that the statement touches.
abbrev pub matches : IngestValues → Check → Bool
matches v c = text_eq c.ping_key v.ping_key && not (state_eq c.state paused)

-- `upd`, by the kind of the ping.
upd_kind : PingKind → IngestValues → Option ℤ → Check → Check
unfolding reported_or
upd_kind start v m c = record c {
  last_started_at = some v.received_at;
  last_duration_ms = reported_or m c.last_duration_ms;
}
upd_kind success v m c = record c {
  last_ping_at = some v.received_at;
  last_started_at = none;
  next_due_at = v.next_due_at;
  state = up;
  last_duration_ms = reported_or m c.last_duration_ms;
}
upd_kind fail v m c = record c {
  last_ping_at = some v.received_at;
  last_started_at = none;
  next_due_at = v.next_due_at;
  state = down;
  last_duration_ms = reported_or m c.last_duration_ms;
}

duration_of : IngestValues → Check → Option ℤ
unfolding measured
duration_of v c = measured v.kind v.duration_ms c.last_started_at v.received_at

unfoldable pub upd : IngestValues → Check → Check
unfolding upd_kind duration_of
upd v c = upd_kind v.kind v (duration_of v c) c

-- The row that is inserted for an updated check.
unfoldable pub ping_of : IngestValues → Check → Ping
unfolding duration_of
ping_of v c = record {
  check_id = c.id;
  received_at = v.received_at;
  kind = v.kind;
  exit_code = v.exit_code;
  duration_ms = duration_of v c;
  body = v.body;
  source_ip = v.source_ip;
  user_agent = v.user_agent;
}

-- The statement; its second result is the row count.
unfoldable pub ingest_sql : IngestValues → Db → Db × ℕ
unfolding upd ping_of
ingest_sql v db = (
  record db {
    checks = map (λ c. if matches v c then upd v c else c) db.checks;
    pings = map (ping_of v) (filter (matches v) db.checks) ++ db.pings;
  },
  length (filter (matches v) db.checks),
)
