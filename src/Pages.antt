-- ===== src/Pages.antt =====
-- checks/pagination.ts, with the mappers of checks/check.mapper.ts and the paged reads of
-- checks/checks.service.ts and checks/checks.repository.ts. The `findMany` of Prisma is a
-- parameter: what it answers for a cursor and a number of rows. A `Date` prints itself as text:
-- `to_iso`. Ids of incidents and checks are numbers here, ids of pings are 64-bit numbers.
pub mod Cursor
pub mod Walk
mod Examples
use mathlib.Core.Option
use silence_watch.Prelude.Int.{ℤ}
use silence_watch.Prelude.{
  Bool, List, Option, Text, [], all, decimal, digits_value, if◌then◌else◌, is_decimal, leb, length,
  ltb, map, nat_eq, none, some, suc, take, text_keys, true, ℕ, ◌&&◌, ◌+◌, ◌==◌, ◌||◌, ◌∷◌,
}
use silence_watch.Tables.{Incident, Ping, PingKind}

pub record PageDto (B : Type 0) : Type 0 where
  pub items : List B
  pub next_cursor : Option Text

abbrev pub last_of {ℓ} : {A : Type ℓ} → List A → Option A
last_of [] = none
last_of (x ∷ []) = some x
last_of (x ∷ y ∷ xs) = last_of (y ∷ xs)

module _ {A : Type 0} (id_of : A → Text) where
  cursor_at : Bool → Option A → Option Text
  cursor_at true (some last) = some (id_of last)
  cursor_at _ _ = none

  -- `rows`, `limit` and `map` of the source; `id_of` is `String(row.id)`.
  unfoldable pub paginate : {B : Type 0} → List A → ℕ → (A → B) → PageDto B
  unfolding cursor_at
  paginate rows limit f =
      let has_more = ltb limit (length rows) in
      let page = if has_more then take limit rows else rows in
      record { items = map f page; next_cursor = cursor_at has_more (last_of page) }

unfoldable pub parse_bigint_cursor : Option Text → Option ℕ
parse_bigint_cursor none = none
parse_bigint_cursor (some s) =
    if leb 1 (length s) && (leb (length s) 19 && all is_decimal s)
    then some (digits_value 0 s)
    else none

-- The class [0-9a-f] without regard to case.
abbrev pub is_uuid_digit : ℕ → Bool
is_uuid_digit c = is_decimal c || (leb b'a' c && leb c b'f' || leb b'A' c && leb c b'F')

-- The hyphens of a UUID stand at these places.
abbrev pub is_hyphen_place : ℕ → Bool
is_hyphen_place i = i == 8 || (i == 13 || (i == 18 || i == 23))

unfoldable pub matches_uuid : ℕ → Text → Bool
matches_uuid i [] = i == 36
matches_uuid i (c ∷ s) =
    ltb i 36
    && ((if is_hyphen_place i then c == b'-' else is_uuid_digit c) && matches_uuid (suc i) s)

unfoldable pub parse_uuid_cursor : Option Text → Option Text
parse_uuid_cursor none = none
parse_uuid_cursor (some s) = if matches_uuid 0 s then some s else none

-- A row of the table of pings, with the id that the database gave it.
pub record PingRow : Type 0 where
  pub id : ℕ
  pub ping : Ping

pub record PingDto : Type 0 where
  pub id : Text
  pub check_id : ℕ
  pub received_at : Text
  pub kind : PingKind
  pub exit_code : Option ℤ
  pub duration_ms : Option ℤ
  pub body : Option Text
  pub source_ip : Option Text
  pub user_agent : Option Text

unfoldable pub to_ping_dto : (ℕ → Text) → PingRow → PingDto
to_ping_dto to_iso row = record {
  id = decimal row.id;
  check_id = row.ping.check_id;
  received_at = to_iso row.ping.received_at;
  kind = row.ping.kind;
  exit_code = row.ping.exit_code;
  duration_ms = row.ping.duration_ms;
  body = row.ping.body;
  source_ip = row.ping.source_ip;
  user_agent = row.ping.user_agent;
}

pub record IncidentDto : Type 0 where
  pub id : ℕ
  pub check_id : ℕ
  pub started_at : Text
  pub resolved_at : Option Text
  pub notifications_sent : ℕ

unfoldable pub to_incident_dto : (ℕ → Text) → Incident → IncidentDto
to_incident_dto to_iso incident = record {
  id = incident.id;
  check_id = incident.check_id;
  started_at = to_iso incident.started_at;
  resolved_at = Option.map to_iso incident.resolved_at;
  notifications_sent = incident.notifications_sent;
}

-- `list_pings` of one check, over `findMany` for this check: a cursor and a number of rows.
unfoldable pub list_pings :
    (ℕ → Text) → (Option ℕ → ℕ → List PingRow) → ℕ → Option Text → PageDto PingDto
list_pings to_iso find_many limit cursor =
    paginate (λ (p : PingRow). decimal p.id) (find_many (parse_bigint_cursor cursor) (limit + 1))
      limit (to_ping_dto to_iso)

unfoldable pub list_incidents :
    (ℕ → Text)
    → (ℕ → Text)
    → (Option Text → ℕ → List Incident)
    → ℕ
    → Option Text
    → PageDto IncidentDto
list_incidents to_iso uuid_of find_many limit cursor =
    paginate (λ (i : Incident). uuid_of i.id) (find_many (parse_uuid_cursor cursor) (limit + 1))
      limit (to_incident_dto to_iso)
