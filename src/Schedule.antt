-- ===== src/Schedule.antt =====
-- schedule/next-due.ts: when the next heartbeat is due. An instant is a number of milliseconds
-- since the epoch. `cron-parser` is the parameter `Cron`: the next occurrence of an expression in
-- a time zone after an instant, `none` where the parser throws.
pub mod Laws
mod Examples
use silence_watch.Prelude.Int.{negsuc, pos, ℤ}
use silence_watch.Prelude.{
  Option, Result, Text, [], err, if◌then◌else◌, nat_eq, none, ok, some, text_keys, ℕ, ◌*◌, ◌+◌,
  ◌==◌, ◌∷◌,
}

pub data ScheduleType : Type 0 where
  interval cron : ScheduleType

-- A period is an integer, so `Number.isFinite` holds of it.
pub record Schedule : Type 0 where
  pub schedule_type : ScheduleType
  pub period_seconds : Option ℤ
  pub cron_expression : Option Text
  pub timezone : Text

pub data InvalidScheduleError : Type 0 where
  no_period no_expression unevaluable : InvalidScheduleError

abbrev pub Cron : Type 0
Cron = Text → Text → ℕ → Option ℕ

-- The branch for interval checks.
interval_due : Option ℤ → ℕ → Result InvalidScheduleError ℕ
interval_due none from = err no_period
interval_due (some (negsuc n)) from = err no_period
interval_due (some (pos n)) from = if n == 0 then err no_period else ok (from + n * 1000)

occurrence : Option ℕ → Result InvalidScheduleError ℕ
occurrence none = err unevaluable
occurrence (some t) = ok t

-- The branch for cron checks.
cron_due : Cron → Option Text → Text → ℕ → Result InvalidScheduleError ℕ
cron_due next none timezone from = err no_expression
cron_due next (some []) timezone from = err no_expression
cron_due next (some (c ∷ e)) timezone from = occurrence (next (c ∷ e) timezone from)

due_of : Cron → ScheduleType → Schedule → ℕ → Result InvalidScheduleError ℕ
due_of next interval s from = interval_due s.period_seconds from
due_of next cron s from = cron_due next s.cron_expression s.timezone from

unfoldable pub compute_next_due_at : Cron → Schedule → ℕ → Result InvalidScheduleError ℕ
unfolding due_of interval_due cron_due occurrence
compute_next_due_at next s from = due_of next s.schedule_type s from

-- The instant from which a check is considered down.
abbrev pub compute_deadline : ℕ → ℕ → ℕ
compute_deadline next_due_at grace_seconds = next_due_at + grace_seconds * 1000

done : Result InvalidScheduleError ℕ → Result InvalidScheduleError (Unit {0})
done (ok t) = ok tt
done (err x) = err x

-- The source evaluates the schedule at `new Date()`.
pub assert_schedule_is_usable : Cron → Schedule → ℕ → Result InvalidScheduleError (Unit {0})
unfolding done
assert_schedule_is_usable next s now = done (compute_next_due_at next s now)
