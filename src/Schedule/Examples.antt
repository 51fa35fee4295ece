-- ===== src/Schedule/Examples.antt =====
-- Two schedules, and a parser whose expressions all mean every full minute.
use silence_watch.Prelude.Int.{pos}
use silence_watch.Prelude.{
  [], err, nat_eq, none, ok, refl, some, text_keys, ◌*◌, ◌+◌, ◌/◌, ◌∷◌, ◌≡◌,
}
use silence_watch.Schedule.{
  Cron, Schedule, assert_schedule_is_usable, compute_next_due_at, cron, interval, no_period,
}

abbrev each_minute : Cron
each_minute e tz from = some ((from / 60000 + 1) * 60000)

abbrev hourly : Schedule
hourly = record {
  schedule_type = interval;
  period_seconds = some (pos 3600);
  cron_expression = none;
  timezone = [];
}

abbrev minutely : Schedule
minutely = record {
  schedule_type = cron;
  period_seconds = none;
  cron_expression = some (b'*' ∷ []);
  timezone = [];
}

abbrev broken : Schedule
broken = record hourly { period_seconds = some (pos 0) }

schedule_tests :
    (compute_next_due_at each_minute hourly 1000 ≡ ok 3601000)
    × (compute_next_due_at each_minute minutely 1000 ≡ ok 60000)
    × (assert_schedule_is_usable each_minute broken 1000 ≡ err no_period)
unfolding compute_next_due_at assert_schedule_is_usable
schedule_tests = (refl, refl, refl)
