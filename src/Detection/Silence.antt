-- ===== src/Detection/Silence.antt =====
-- What a pass promises: a check that has been silent for too long is down, and has an incident.
use silence_watch.Queue.Enqueueing.{enqueue-Frame}
use silence_watch.Detection.Closing.{
  IsUnwell, open_incidents_sql-IsNumbered, open_incidents_sql-checks, resolve_incidents_sql-checks,
  resolve_incidents_sql-unwell,
}
use silence_watch.Detection.Opening.{IsNumbered, OwnIds, open_incidents_sql-opens, unopened}
use silence_watch.Detection.Backlog.{advance_overdue_checks-backlog, backlog}
use silence_watch.Prelude.{
  In, List, Option, Rows-In, ap, arith, count-none, false, inl, inr, length, nat_eq, none, refl,
  some, subst, sym, text_keys, true, ℕ, ◌*◌, ◌<◌, ◌∙◌, ◌≡◌, ◌≤◌, ◌⊎◌,
}
use silence_watch.Tables.{Check, CheckState, Db, alert_down, alert_up, down}
use silence_watch.Schedule.{compute_deadline}
use silence_watch.Detection.{
  Detector, Pass, advance_overdue_checks, due, due_at, has_open, is_active, is_well, max_batches,
  open_incidents, open_incidents_sql, resolve_incidents, resolve_incidents_sql, tick,
}
use silence_watch.Detection.Advance.{
  UniqueIds, late_down, new_down, new_late, stay, step, up_down, up_late, ◌⟶*◌, ◌⟶◌,
}
use silence_watch.Detection.Course.{Follows, advance_overdue_checks-Follows}

-- The deadline and the grace period of an active check are over.
abbrev pub IsSilent : ℕ → Check → Type 0
IsSilent now c =
    (is_active c.state ≡ true)
    × ((t : ℕ) × (c.next_due_at ≡ some t) × (t < now) × (compute_deadline t c.grace_seconds ≤ now))

-- From an active state, the state machine leads to an active state or to DOWN.
active-⟶ : {s t : CheckState} → s ⟶ t → (is_active t ≡ true) ⊎ (t ≡ down)
active-⟶ new_late = inl refl
active-⟶ up_late = inl refl
active-⟶ new_down = inr refl
active-⟶ up_down = inr refl
active-⟶ late_down = inr refl

down-⟶* : {s t : CheckState} → s ⟶* t → s ≡ down → t ≡ down
down-⟶* stay e = e
down-⟶* (step new_late k) e = cc
down-⟶* (step up_late k) e = cc
down-⟶* (step new_down k) e = cc
down-⟶* (step up_down k) e = cc
down-⟶* (step late_down k) e = cc

active-⟶* : {s t : CheckState} → s ⟶* t → is_active s ≡ true → is_active t ≡ false → t ≡ down
active-⟶* stay h k = cc
active-⟶* (step e path) h k = elim (active-⟶ e) [
  | inl go_on ↦ active-⟶* path go_on k
  | inr fell ↦ down-⟶* path fell
]

overdue-inactive :
    (now : ℕ) (s : CheckState) (grace : ℕ) (due_by : Option ℕ) (t : ℕ)
    → due_by ≡ some t
    → t < now
    → compute_deadline t grace ≤ now
    → due_at now s grace due_by ≡ false
    → is_active s ≡ false
unfolding due_at
overdue-inactive now s grace none t at past over h = cc
overdue-inactive now s grace (some u) t at past over h = ground arith

-- A silent check that is no longer due has gone down.
silent-down :
    (now : ℕ) (c c' : Check) → IsSilent now c → Follows c c' → due now c' ≡ false → c'.state ≡ down
unfolding due
silent-down now c c' (active, (t, at, past, over)) (same, path) settled =
    let grace = ap (λ (x : Check). x.grace_seconds) same in
    active-⟶* path active (
      overdue-inactive now c'.state c'.grace_seconds c'.next_due_at t
        (ap (λ (x : Check). x.next_due_at) same ∙ at) past
        (subst (λ g. compute_deadline t g ≤ now) (sym grace) over) settled)

-- A check that is silent when the pass begins is down after its batches.
advance_overdue_checks-down :
    (pass : Pass) (now size : ℕ) (d : Detector) (cs : List Check) (c : Check)
    → UniqueIds cs
    → ((i : ℕ) → pass.advance_at i ≡ now)
    → ((i j : ℕ) → pass.advance_locked i j ≡ false)
    → backlog now cs ≤ max_batches * size
    → In c cs
    → IsSilent now c
    → (c' : Check) × In c' (advance_overdue_checks pass size (d, cs)).1
      × (c'.id ≡ c.id)
      × (c'.state ≡ down)
advance_overdue_checks-down pass now size d cs c unique clock unlocked fits m silent =
    let after = (advance_overdue_checks pass size (d, cs)).1 in
    let (rows, ids) = advance_overdue_checks-Follows pass size d cs unique in
    let (c', n, follows) = Rows-In Follows c cs after rows m in
    let drained = advance_overdue_checks-backlog pass now size d cs clock unlocked fits in
    (
      c',
      n,
      ap (λ (x : Check). x.id) follows.0,
      silent-down now c c' silent follows (count-none (due now) c' after drained n),
    )

-- The state of the tables when the batches of a pass are done.
abbrev pub advanced : Pass → ℕ → Detector → Db → Db
advanced pass size d db = record db { checks = (advance_overdue_checks pass size (d, db.checks)).1 }

-- One pass that has room for the work it meets: one instant for all the batches, no row that
-- another transaction holds, batches for all the checks that are due, and one for all those that
-- wait for an incident.
pub record HasRoom (pass : Pass) (now size : ℕ) (d : Detector) (db : Db) : Type 0 where
  pub clock : (i : ℕ) → pass.advance_at i ≡ now
  pub advance_free : (i j : ℕ) → pass.advance_locked i j ≡ false
  pub open_free : (i : ℕ) → pass.open_locked i ≡ false
  pub due_fit : backlog now db.checks ≤ max_batches * size
  pub unopened_fit : length (unopened (advanced pass size d db)) ≤ size

down-IsUnwell :
    (cs : List Check) (c : Check) → UniqueIds cs → In c cs → c.state ≡ down → IsUnwell cs c.id
unfolding is_well
down-IsUnwell cs c unique m is_down x n same = rw (unique x c n m same) (rw is_down refl)

-- Opening incidents leaves the checks alone, and every check that is down with an open incident.
open_incidents-down :
    (pass : Pass) (size : ℕ) (db : Db) (c : Check)
    → IsNumbered db
    → ((i : ℕ) → pass.open_locked i ≡ false)
    → length (unopened db) ≤ size
    → In c db.checks
    → c.state ≡ down
    → let db' = open_incidents pass size db in
      (db'.checks ≡ db.checks) × OwnIds db'.incidents × (has_open db'.incidents c.id ≡ true)
unfolding open_incidents
open_incidents-down pass size db c wf free fits m is_down =
    let (inserted, opened) = open_incidents_sql size pass.open_at pass.open_locked db in
    let frame = enqueue-Frame alert_down pass.down_at opened inserted in
    (
      frame.checks ∙ open_incidents_sql-checks size pass.open_at pass.open_locked db,
      subst OwnIds (sym frame.incidents)
          (open_incidents_sql-IsNumbered size pass.open_at pass.open_locked db wf).own,
      ap (λ is. has_open is c.id) frame.incidents
          ∙ open_incidents_sql-opens size pass.open_at pass.open_locked db c free fits m is_down,
    )

-- Closing incidents leaves the checks alone, and keeps the incident of a check that is down.
resolve_incidents-down :
    (pass : Pass) (size : ℕ) (d : Detector) (db : Db) (c : Check)
    → UniqueIds db.checks
    → OwnIds db.incidents
    → In c db.checks
    → c.state ≡ down
    → has_open db.incidents c.id ≡ true
    → let db' = (resolve_incidents pass size (d, db)).1 in
      (db'.checks ≡ db.checks) × (has_open db'.incidents c.id ≡ true)
unfolding resolve_incidents
resolve_incidents-down pass size d db c unique own m is_down h =
    let (closed, resolved) = resolve_incidents_sql size pass.resolve_at pass.resolve_locked db in
    let frame = enqueue-Frame alert_up pass.up_at resolved closed in
    (
      frame.checks ∙ resolve_incidents_sql-checks size pass.resolve_at pass.resolve_locked db,
      ap (λ is. has_open is c.id) frame.incidents
          ∙ resolve_incidents_sql-unwell size pass.resolve_at c.id pass.resolve_locked db own
              (down-IsUnwell db.checks c unique m is_down) h,
    )

-- In tables where checks and incidents have ids of their own: an active check whose deadline and
-- grace period are over when a pass begins is down with an open incident when the pass, with room
-- for its work and no row locked, is done.
pub tick-silence :
    (pass : Pass) (now size : ℕ) (d : Detector) (db : Db) (c : Check)
    → UniqueIds db.checks
    → IsNumbered db
    → HasRoom pass now size d db
    → In c db.checks
    → IsSilent now c
    → let db' = (tick pass size (d, db)).1 in
      (c' : Check) × In c' db'.checks
      × (c'.id ≡ c.id)
      × (c'.state ≡ down)
      × (has_open db'.incidents c.id ≡ true)
unfolding tick
tick-silence pass now size d db c unique wf room m silent =
    let (d', checks) = advance_overdue_checks pass size (d, db.checks) in
    let db1 = record db { checks = checks } in
    let db2 = open_incidents pass size db1 in
    let (c', n, same, is_down) =
      advance_overdue_checks-down pass now size d db.checks c unique room.clock room.advance_free
        room.due_fit m silent in
    let (rows, ids) = advance_overdue_checks-Follows pass size d db.checks unique in
    let (kept, own, opened) =
      open_incidents-down pass size db1 c' record { own = wf.own; below = wf.below } room.open_free
        room.unopened_fit n is_down in
    let (kept', held) =
      resolve_incidents-down pass size d' db2 c' (subst UniqueIds (sym kept) ids) own
        (subst (In c') (sym kept) n) is_down opened in
    (
      c',
      subst (In c') (sym (kept' ∙ kept)) n,
      same,
      is_down,
      subst (λ i. has_open (tick pass size (d, db)).1.incidents i ≡ true) same held,
    )
