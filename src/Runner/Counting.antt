-- ===== src/Runner/Counting.antt =====
-- The runs of a task: none overlaps another, and none is lost.
use silence_watch.Prelude.{
  List, Option, Option-cases, Text, [], ap, arith, filter, if◌then◌else◌, inl, inr, nat_eq, none,
  not, refl, some, text_keys, true, ℕ, ◌+◌, ◌==◌, ◌∙◌, ◌∷◌, ◌≡◌,
}
use silence_watch.Runner.{
  Flight, Runner, finish, idle, is_running, new_runner, release, run, running, settled, start, stop,
}

-- A history of a runner, with the calls of `run` and the starts of the task.
pub data History : Runner → ℕ → ℕ → Type 0 where
  created : History new_runner 0 0
  timer_started :
      {r : Runner} {calls starts : ℕ} (handle : ℕ)
      → History r calls starts
      → History (start handle r) calls starts
  timer_stopped :
      {r : Runner} {calls starts : ℕ} → History r calls starts → History (stop r) calls starts
  called :
      {r : Runner} {calls starts : ℕ}
      → History r calls starts
      → History (run r).0 (calls + 1) (starts + (if (run r).1 then 1 else 0))
  ended :
      {r : Runner} {calls starts : ℕ} (now : ℕ) (result : Option Text)
      → r.current ≡ running
      → History r calls starts
      → History (finish now result r) calls starts
  released :
      {r : Runner} {calls starts : ℕ}
      → r.current ≡ settled
      → History r calls starts
      → History (release r) calls starts

abbrev pub live_of : Option ℕ → List ℕ
live_of none = []
live_of (some t) = t ∷ []

-- What the histories keep.
abbrev pub IsCounted : Runner → ℕ → ℕ → Type 0
IsCounted r calls starts =
    (starts ≡ r.ticks + r.failures + (if is_running r.current then 1 else 0))
    × (calls ≡ starts + r.skipped)
    × (r.intervals ≡ live_of r.timer)

start-IsCounted :
    (handle : ℕ) (r : Runner) (calls starts : ℕ)
    → IsCounted r calls starts
    → IsCounted (start handle r) calls starts
unfolding start
start-IsCounted handle r calls starts (a, b, live) = elim (Option-cases r.timer) [
  | inl off ↦ rw off (a, b, ap (λ ts. handle ∷ ts) (live ∙ ap live_of off))
  | inr (t, on) ↦ rw on (a, b, live ∙ ap live_of on)
]

stop-IsCounted :
    (r : Runner) (calls starts : ℕ) → IsCounted r calls starts → IsCounted (stop r) calls starts
unfolding stop
stop-IsCounted r calls starts (a, b, live) = elim (Option-cases r.timer) [
  | inl off ↦ rw off (a, b, live ∙ ap live_of off)
  | inr (t, on) ↦
      let same : (t == t) ≡ true = ground arith in
      rw on (a, b, ap (filter (λ h. not (h == t))) (live ∙ ap live_of on) ∙ rw same refl)
]

run-IsCounted :
    (r : Runner) (calls starts : ℕ)
    → IsCounted r calls starts
    → IsCounted (run r).0 (calls + 1) (starts + (if (run r).1 then 1 else 0))
unfolding run
run-IsCounted r calls starts (a, b, live) = go r.current refl
  where
    go :
        (f : Flight)
        → r.current ≡ f
        → IsCounted (run r).0 (calls + 1) (starts + (if (run r).1 then 1 else 0))
    go idle e = rw e (omega (arith, rw e at a), omega (arith, b), live)
    go running e = rw e (omega (arith, rw e at a), omega (arith, b), live)
    go settled e = rw e (omega (arith, rw e at a), omega (arith, b), live)

-- In every history the task was started as often as it has ended, and once more if it is in flight;
-- each call started it or was counted as skipped; and the runtime keeps one interval firing if the
-- timer is set, and none if it is not.
pub run-counted :
    (r : Runner) (calls starts : ℕ)
    → History r calls starts
    → (starts ≡ r.ticks + r.failures + (if is_running r.current then 1 else 0))
      × (calls ≡ starts + r.skipped)
      × (r.intervals ≡ live_of r.timer)
unfolding new_runner finish release
run-counted r calls starts created = (refl, refl, refl)
run-counted r calls starts (timer_started {r = r0} handle h) =
    start-IsCounted handle r0 calls starts (run-counted r0 calls starts h)
run-counted r calls starts (timer_stopped {r = r0} h) =
    stop-IsCounted r0 calls starts (run-counted r0 calls starts h)
run-counted r calls starts (called {r = r0} {calls = c} {starts = s} h) =
    run-IsCounted r0 c s (run-counted r0 c s h)
run-counted r calls starts (ended {r = r0} now none flying h) =
    let (a, b, live) = run-counted r0 calls starts h in (omega (arith, rw flying at a), b, live)
run-counted r calls starts (ended {r = r0} now (some message) flying h) =
    let (a, b, live) = run-counted r0 calls starts h in (omega (arith, rw flying at a), b, live)
run-counted r calls starts (released {r = r0} over h) =
    let (a, b, live) = run-counted r0 calls starts h in (omega (arith, rw over at a), b, live)
