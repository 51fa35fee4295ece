-- ===== src/Runner/Examples.antt =====
-- Two calls of which the second joins, a failure, and a timer that is started twice.
use silence_watch.Prelude.{if◌then◌else◌, nat_eq, refl, some, text, text_keys, ◌+◌, ◌≡◌}
use silence_watch.Runner.{Runner, finish, is_running, new_runner, run, start}
use silence_watch.Runner.Counting.{
  History, called, created, ended, live_of, run-counted, timer_started,
}

abbrev after : Runner
after = finish 5 (some (text "timeout")) (run (run (start 2 (start 1 new_runner))).0).0

past : History after 2 1
unfolding run new_runner start
past =
    ended 5 (some (text "timeout")) refl
      (called (called (timer_started 2 (timer_started 1 created))))

run-counted_example :
    (1 ≡ after.ticks + after.failures + (if is_running after.current then 1 else 0))
    × (2 ≡ 1 + after.skipped)
    × (after.intervals ≡ live_of after.timer)
run-counted_example = run-counted after 2 1 past
