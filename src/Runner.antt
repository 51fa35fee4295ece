-- ===== src/Runner.antt =====
-- common/interval-runner.ts: a repeating task. A tick is cut at its `await`: `run` is what a call does
-- before it, `finish` the rest of `execute`, and `release` the `finally` of `run`, which comes later.
pub mod Counting
mod Examples
use silence_watch.Prelude.{
  Bool, List, Option, Text, [], false, filter, if◌then◌else◌, nat_eq, none, not, some, text_keys,
  true, ℕ, ◌+◌, ◌==◌, ◌∷◌,
}

-- `current`: no promise, the promise of a task in flight, or that of a task that is over.
pub data Flight : Type 0 where
  idle running settled : Flight

abbrev pub is_idle : Flight → Bool
is_idle idle = true
is_idle _ = false

abbrev pub is_running : Flight → Bool
is_running running = true
is_running _ = false

-- `intervals` are the intervals of this runner that the runtime keeps firing.
pub record Runner : Type 0 where
  pub timer : Option ℕ
  pub intervals : List ℕ
  pub current : Flight
  pub ticks : ℕ
  pub failures : ℕ
  pub skipped : ℕ
  pub last_error : Option Text
  pub last_success_at : Option ℕ

unfoldable pub new_runner : Runner
new_runner = record {
  timer = none;
  intervals = [];
  current = idle;
  ticks = 0;
  failures = 0;
  skipped = 0;
  last_error = none;
  last_success_at = none;
}

-- `setInterval` gives the handle.
unfoldable pub start : ℕ → Runner → Runner
start handle r = elim r.timer [
  | none ↦ record r { timer = some handle; intervals = handle ∷ r.intervals }
  | some t ↦ r
]

unfoldable pub stop : Runner → Runner
stop r = elim r.timer [
  | none ↦ r
  | some t ↦ record r { timer = none; intervals = filter (λ h. not (h == t)) r.intervals }
]

-- `run`: the new state, and whether the task was started rather than joined.
unfoldable pub run : Runner → Runner × Bool
run r =
    if is_idle r.current
    then (record r { current = running }, true)
    else (record r { skipped = r.skipped + 1 }, false)

-- The end of the task in flight, with the message of the error if it failed.
unfoldable pub finish : ℕ → Option Text → Runner → Runner
finish now none r = record r {
  current = settled;
  ticks = r.ticks + 1;
  last_success_at = some now;
  last_error = none;
}
finish now (some message) r = record r {
  current = settled;
  failures = r.failures + 1;
  last_error = some message;
}

-- `this.current = null`.
unfoldable pub release : Runner → Runner
release r = record r { current = idle }
