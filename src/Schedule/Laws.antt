-- ===== src/Schedule/Laws.antt =====
-- What a computed deadline promises.
use silence_watch.Prelude.{
  Option, Text, [], arith, nat_eq, none, ok, some, text_keys, ℕ, ◌+◌, ◌<◌, ◌∷◌, ◌≡◌, ◌≤◌,
}
use silence_watch.Schedule.{
  Cron, Schedule, ScheduleType, compute_next_due_at, cron, cron_due, due_of, interval, interval_due,
  occurrence,
}

-- What the parser documents: an occurrence lies after the instant asked for.
abbrev pub IsLater : Cron → Type 0
IsLater next = (e tz : Text) (from t : ℕ) → next e tz from ≡ some t → from < t

-- And it is the next one: no other lies in between.
abbrev pub IsNext : Cron → Type 0
IsNext next =
    (e tz : Text) (from later t : ℕ)
    → next e tz from ≡ some t
    → from ≤ later
    → later < t
    → next e tz later ≡ some t

module _ (next : Cron) (s : Schedule) where
  due_of-later :
      (k : ScheduleType) (from t : ℕ) → IsLater next → due_of next k s from ≡ ok t → from < t
  unfolding due_of interval_due cron_due occurrence
  due_of-later interval from t later h = ground arith
  due_of-later cron from t later h = grind (arith, later)

  -- A deadline that is computed lies after the signal that it is computed from, if the parser's
  -- occurrences do.
  pub compute_next_due_at-later :
      (from t : ℕ) → IsLater next → compute_next_due_at next s from ≡ ok t → from < t
  unfolding compute_next_due_at
  compute_next_due_at-later from t later h = due_of-later s.schedule_type from t later h

  delay_interval :
      (from delay t : ℕ)
      → due_of next interval s from ≡ ok t
      → due_of next interval s (from + delay) ≡ ok (t + delay)
  unfolding due_of interval_due
  delay_interval from delay t h = ground arith

  delay_cron :
      (expression : Option Text) (tz : Text) (from delay t : ℕ)
      → IsNext next
      → from + delay < t
      → cron_due next expression tz from ≡ ok t
      → cron_due next expression tz (from + delay) ≡ ok t
  unfolding cron_due occurrence
  delay_cron none tz from delay t first early h = cc
  delay_cron (some []) tz from delay t first early h = cc
  delay_cron (some (c ∷ e)) tz from delay t first early h =
      ground (arith, first (c ∷ e) tz from (from + delay) t)

  -- A signal that comes later by `delay` moves the deadline of an interval check by as much. The
  -- deadline of a cron check stays where it is, as long as the signal comes before it, if the
  -- parser's occurrences are the next ones.
  pub compute_next_due_at-delay :
      (from delay t : ℕ)
      → IsNext next
      → compute_next_due_at next s from ≡ ok t
      → (s.schedule_type ≡ interval → compute_next_due_at next s (from + delay) ≡ ok (t + delay))
        × (s.schedule_type ≡ cron
            → from + delay < t
            → compute_next_due_at next s (from + delay) ≡ ok t)
  unfolding compute_next_due_at due_of
  compute_next_due_at-delay from delay t first h = (
    λ i. rw i (delay_interval from delay t (rw i at h)),
    λ c early. rw c (delay_cron s.cron_expression s.timezone from delay t first early (rw c at h)),
  )
