-- ===== src/Ingest/Routes.antt =====
-- ingest/ingest.plugin.ts: which ping a route means, and what it answers.
use silence_watch.Ingest.{
  IngestCommand, IngestOutcome, Runtime, Service, ingest, invalid, not_watched, rate_limited,
  recorded, unknown,
}
use silence_watch.Prelude.Int.{pos}
use silence_watch.Prelude.{
  List, Option, Text, [], all, arith, if◌then◌else◌, leb, length, nat_eq, none, refl, some, suc,
  text, text_keys, zero, ℕ, ◌&&◌, ◌*◌, ◌+◌, ◌-◌, ◌<◌, ◌↔◌, ◌∷◌, ◌≡◌, ◌≤◌,
}
use silence_watch.Tables.{Db, PingKind, fail, start, success}
use silence_watch.Ingest.Values.{Number, finite, is_digit}

-- The four routes below `/p`, with what stands in the place of `:exitCode`.
pub data Route : Type 0 where
  bare start_route fail_route : Route
  exit_route : Text → Route

digits_value : ℕ → Text → ℕ
digits_value acc [] = acc
digits_value acc (c ∷ s) = digits_value (acc * 10 + (c - b'0')) s

abbrev pub max_exit_code : ℕ
max_exit_code = 255

-- `/^\d{1,n}$/` and `Number`.
pub digits_up_to : ℕ → Text → Option ℕ
unfolding digits_value
digits_up_to n [] = none
digits_up_to n (c ∷ s) =
    if leb (length (c ∷ s)) n && all is_digit (c ∷ s) then some (digits_value 0 (c ∷ s)) else none

capped : Option ℕ → Option ℕ
capped none = none
capped (some value) = if leb value max_exit_code then some value else none

unfoldable pub parse_exit_code : Option Text → Option ℕ
unfolding capped digits_up_to
parse_exit_code none = none
parse_exit_code (some raw) = capped (digits_up_to 3 raw)

-- The query parameter `duration_ms`, if it is a single text.
pub parse_duration_ms : Option Text → Option ℕ
unfolding digits_up_to
parse_duration_ms none = none
parse_duration_ms (some raw) = digits_up_to 10 raw

kind_of_code : Option ℕ → Option PingKind
kind_of_code none = none
kind_of_code (some zero) = some success
kind_of_code (some (suc n)) = some fail

unfoldable pub resolve_kind : Route → Option PingKind
unfolding kind_of_code parse_exit_code
resolve_kind bare = some success
resolve_kind start_route = some start
resolve_kind fail_route = some fail
resolve_kind (exit_route raw) = kind_of_code (parse_exit_code (some raw))

pub record Reply : Type 0 where
  pub status : ℕ
  pub body : Text
  pub retry_after : Option ℕ

abbrev pub reply : ℕ → Text → Reply
reply status body = record { status = status; body = body; retry_after = none }

-- The answer to each outcome; `none` is a service that threw.
unfoldable pub respond : Option IngestOutcome → Reply
respond none = reply 503 (text "UNAVAILABLE")
respond (some recorded) = reply 200 (text "OK")
respond (some not_watched) = reply 200 (text "PAUSED")
respond (some unknown) = reply 404 (text "NOT FOUND")
respond (some rate_limited) = record {
  status = 429;
  body = text "RATE LIMITED";
  retry_after = some 60;
}
respond (some invalid) = reply 400 (text "BAD REQUEST")

-- What a request carries besides its route: the key, the query parameter, the raw body, the
-- client's address and its agent.
pub record Request : Type 0 where
  pub ping_key : Text
  pub route : Route
  pub duration : Option Text
  pub body : Option (List ℕ)
  pub ip : Option Text
  pub user_agent : Option Text

exit_code_of : Route → Option ℕ
unfolding parse_exit_code
exit_code_of (exit_route raw) = parse_exit_code (some raw)
exit_code_of _ = none

number_of : Option ℕ → Option Number
number_of none = none
number_of (some n) = some (finite (pos n))

pub command_of : Request → PingKind → IngestCommand
unfolding exit_code_of number_of parse_duration_ms
command_of r kind = record {
  ping_key = r.ping_key;
  kind = kind;
  exit_code = number_of (exit_code_of r.route);
  duration_ms = number_of (parse_duration_ms r.duration);
  body = r.body;
  ip = r.ip;
  user_agent = r.user_agent;
}

handle_kind : Runtime → Service × Db → Request → ℕ → ℕ → Option PingKind → Service × Db × Reply
unfolding command_of
handle_kind rt (s, db) r arrived received_at none = (s, db, reply 400 (text "BAD REQUEST"))
handle_kind rt (s, db) r arrived received_at (some kind) =
    let ((s', db'), outcome) = ingest rt (s, db) (command_of r kind) arrived received_at in
    (s', db', respond (some outcome))

-- The handler, with a database that answers.
pub handle : Runtime → Service × Db → Request → ℕ → ℕ → Service × Db × Reply
unfolding handle_kind resolve_kind
handle rt (s, db) r arrived received_at =
    handle_kind rt (s, db) r arrived received_at (resolve_kind r.route)

kind_of_code-capped :
    (o : Option ℕ) (k : PingKind)
    → kind_of_code (capped o) ≡ some k
    → (n : ℕ) × (capped o ≡ some n) × (n ≤ 255) × ((n ≡ 0) ↔ (k ≡ success)) × ((0 < n) ↔ (k ≡ fail))
unfolding kind_of_code capped
kind_of_code-capped none k h = cc
kind_of_code-capped (some zero) k h = (
  zero,
  refl,
  omega arith,
  (λ e. ground arith, λ e. refl),
  (λ l. absurd (omega arith), λ e. ground arith),
)
kind_of_code-capped (some (suc n)) k h = (
  suc n,
  ground arith,
  ground arith,
  (λ e. absurd (omega arith), λ e. ground arith),
  (λ l. ground arith, λ e. omega arith),
)

-- An exit code is accepted exactly if it is written with one to three digits and lies in a byte;
-- then it is a success if it is 0 and a failure if it is not.
pub resolve_kind-exit :
    (raw : Text) (k : PingKind)
    → resolve_kind (exit_route raw) ≡ some k
    → (n : ℕ) × (parse_exit_code (some raw) ≡ some n)
      × (n ≤ 255)
      × ((n ≡ 0) ↔ (k ≡ success))
      × ((0 < n) ↔ (k ≡ fail))
unfolding resolve_kind parse_exit_code
resolve_kind-exit raw k h = kind_of_code-capped (digits_up_to 3 raw) k h
