-- ===== src/Tables.antt =====
-- The tables that ingestion, detection and alerting share (prisma/schema.prisma). An id is a
-- number, an instant a number of milliseconds since the epoch, a nullable column an `Option`. Ids
-- that the database generates are the values of a counter, `next_id`.
pub mod Members
use silence_watch.Prelude.{
  Bool, List, Option, Text, any, false, nat_eq, none, some, text_keys, true, ℕ, ◌==◌,
}
use silence_watch.Prelude.Int.{ℤ}
use silence_watch.Schedule.{Schedule}

pub data CheckState : Type 0 where
  new up late down paused : CheckState

pub data PingKind : Type 0 where
  start success fail : PingKind

pub data AlertKind : Type 0 where
  alert_down alert_up : AlertKind

pub data DeliveryStatus : Type 0 where
  pending sent failed : DeliveryStatus

pub data CheckSource : Type 0 where
  manual api auto : CheckSource

pub data Cause : Type 0 where
  missed reported : Cause

-- The only reason that the code writes to `paused_reason`.
pub data PausedReason : Type 0 where
  quota : PausedReason

pub record Check : Type 0 where
  pub id : ℕ
  pub project_id : ℕ
  pub name : Text
  pub slug : Text
  pub key : Option Text
  pub ping_key : Text
  pub ping_key_rotated_at : Option ℕ
  pub schedule : Schedule
  pub grace_seconds : ℕ
  pub state : CheckState
  pub paused_reason : Option PausedReason
  pub last_ping_at : Option ℕ
  pub last_started_at : Option ℕ
  pub last_duration_ms : Option ℤ
  pub next_due_at : Option ℕ
  pub source : CheckSource
  pub environment : Option Text
  pub tags : List Text
  pub description : Option Text
  pub orphaned_at : Option ℕ
  pub created_at : ℕ
  pub updated_at : ℕ

pub record Ping : Type 0 where
  pub check_id : ℕ
  pub received_at : ℕ
  pub kind : PingKind
  pub exit_code : Option ℤ
  pub duration_ms : Option ℤ
  pub body : Option Text
  pub source_ip : Option Text
  pub user_agent : Option Text

pub record Incident : Type 0 where
  pub id : ℕ
  pub check_id : ℕ
  pub started_at : ℕ
  pub resolved_at : Option ℕ
  pub notifications_sent : ℕ
  pub cause : Cause

pub record Channel : Type 0 where
  pub id : ℕ
  pub project_id : ℕ
  pub enabled : Bool

pub record Delivery : Type 0 where
  pub id : ℕ
  pub incident_id : ℕ
  pub channel_id : ℕ
  pub kind : AlertKind
  pub status : DeliveryStatus
  pub attempts : ℕ
  pub last_error : Option Text
  pub next_attempt_at : ℕ
  pub sent_at : Option ℕ
  pub created_at : ℕ

-- Pings stand newest first, the order of `ORDER BY received_at DESC` for pings inserted in turn.
pub record Db : Type 0 where
  pub checks : List Check
  pub pings : List Ping
  pub incidents : List Incident
  pub channels : List Channel
  pub deliveries : List Delivery
  pub next_id : ℕ

abbrev pub state_eq : CheckState → CheckState → Bool
state_eq new new = true
state_eq up up = true
state_eq late late = true
state_eq down down = true
state_eq paused paused = true
state_eq _ _ = false

abbrev pub kind_eq : AlertKind → AlertKind → Bool
kind_eq alert_down alert_down = true
kind_eq alert_up alert_up = true
kind_eq _ _ = false

abbrev pub is_none {ℓ} : {A : Type ℓ} → Option A → Bool
is_none none = true
is_none (some a) = false

-- `x = ANY(xs)`.
abbrev pub mem : ℕ → List ℕ → Bool
mem x xs = any (λ y. y == x) xs
