-- ===== src/Checks/Requests.antt =====
-- The requests of packages/shared/src/schemas/checks.ts. A field that may be absent is an
-- `Option`, one that may also be null an `Option` of an `Option`.
use silence_watch.Prelude.Int.{ℤ}
use silence_watch.Prelude.{
  Bool, List, Option, Text, false, nat_eq, none, not, some, text_keys, true, ℕ, ◌&&◌,
}
use silence_watch.Schedule.{ScheduleType, cron, interval}

pub record ScheduleInput : Type 0 where
  pub schedule_type : Option ScheduleType
  pub period_seconds : Option ℤ
  pub cron_expression : Option Text
  pub timezone : Option Text

pub record CreateCheckRequest : Type 0 where
  pub name : Text
  pub slug : Option Text
  pub grace_seconds : ℕ
  pub environment : Option Text
  pub tags : Option (List Text)
  pub description : Option Text
  pub schedule : ScheduleInput

-- `is_paused` is the field `paused`.
pub record UpdateCheckRequest : Type 0 where
  pub name : Option Text
  pub grace_seconds : Option ℕ
  pub environment : Option (Option Text)
  pub tags : Option (List Text)
  pub description : Option (Option Text)
  pub is_paused : Option Bool
  pub schedule : ScheduleInput

abbrev pub is_cron : Option ScheduleType → Bool
is_cron (some cron) = true
is_cron _ = false

abbrev is_given {ℓ} : {A : Type ℓ} → Option A → Bool
is_given none = false
is_given (some a) = true

-- `refineSchedule`: that it adds no issue.
unfoldable pub refine_schedule : ScheduleInput → Bool
refine_schedule input = elim input.schedule_type [
  | none ↦ true
  | some interval ↦ is_given input.period_seconds && not (is_given input.cron_expression)
  | some cron ↦ is_given input.cron_expression && not (is_given input.period_seconds)
]
