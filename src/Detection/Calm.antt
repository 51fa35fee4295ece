-- ===== src/Detection/Calm.antt =====
-- What a pass leaves as it is: a check that is not due, and the incidents that there are.
use silence_watch.Prelude.{
  Bool-cases, In, In-append_left, In-map, List, [], false, inl, inr, length, ltb, map, nat_eq, refl,
  subst, suc, sym, text_keys, zero, ℕ, ◌+◌, ◌∙◌, ◌∷◌, ◌≡◌,
}
use silence_watch.Tables.{Check, Db, Incident, alert_down, mem}
use silence_watch.Queue.{IncidentRef, Locked}
use silence_watch.Queue.Enqueueing.{enqueue-Frame}
use silence_watch.Detection.{
  Detector, Pass, advance, advance_batches, advance_overdue_checks, advance_row, candidates, due,
  has_open, insert_incident, insert_incidents, max_batches, new_incident, open_incidents,
  open_incidents_sql, tally,
}
use silence_watch.Detection.Advance.{UniqueIds, chosen, chosen-due}
use silence_watch.Detection.Course.{advance-UniqueIds}
use silence_watch.Detection.Closing.{open_incidents_sql-checks}

-- A check that is not due at the instant of a batch is not touched by it.
In-advance :
    (limit now : ℕ) (locked : Locked) (cs : List Check) (c : Check)
    → UniqueIds cs
    → In c cs
    → due now c ≡ false
    → In c (advance limit now locked cs).0
unfolding advance advance_row
In-advance limit now locked cs c unique m calm =
    let ids = chosen limit now locked cs in
    let spared : mem c.id ids ≡ false = elim (Bool-cases (mem c.id ids)) [
      | inr h ↦ h
      | inl h ↦ let clash = sym (chosen-due limit now locked cs unique c m h) ∙ calm in cc
    ] in
    let kept : advance_row now ids c ≡ c = rw spared refl in
    subst (λ x. In x (map (advance_row now ids) cs)) kept (In-map (advance_row now ids) c cs m)

In-advance_batches :
    (left : ℕ) (pass : Pass) (size batch : ℕ) (d : Detector) (cs : List Check) (c : Check)
    → UniqueIds cs
    → In c cs
    → ((n : ℕ) → due (pass.advance_at n) c ≡ false)
    → In c (advance_batches left pass size batch (d, cs)).1
unfolding advance_batches
In-advance_batches zero pass size batch d cs c unique m calm = m
In-advance_batches (suc left) pass size batch d cs c unique m calm =
    let now = pass.advance_at batch in
    let locked = pass.advance_locked batch in
    let after = advance size now locked cs in
    let one = In-advance size now locked cs c unique m (calm batch) in
    elim (Bool-cases (ltb (length after.1) size)) [
      | inl short ↦ rw short one
      | inr full ↦ rw full (
          In-advance_batches left pass size (batch + 1) (tally d after.1) after.0 c
            (advance-UniqueIds size now locked cs unique) one calm)
    ]

pub In-advance_overdue_checks :
    (pass : Pass) (size : ℕ) (d : Detector) (cs : List Check) (c : Check)
    → UniqueIds cs
    → In c cs
    → ((n : ℕ) → due (pass.advance_at n) c ≡ false)
    → In c (advance_overdue_checks pass size (d, cs)).1
unfolding advance_overdue_checks
In-advance_overdue_checks pass size d cs c unique m calm =
    In-advance_batches max_batches pass size 0 d cs c unique m calm

In-insert_incident :
    (now : ℕ) (c : Check) (db : Db) (refs : List IncidentRef) (i : Incident)
    → In i db.incidents
    → In i (insert_incident now c (db, refs)).0.incidents
unfolding insert_incident
In-insert_incident now c db refs i m = elim (Bool-cases (has_open db.incidents c.id)) [
  | inl held ↦ rw held m
  | inr fresh ↦ rw fresh (In-append_left i db.incidents (new_incident now db c ∷ []) m)
]

In-insert_incidents :
    (now : ℕ) (cs : List Check) (db : Db) (refs : List IncidentRef) (i : Incident)
    → In i db.incidents
    → In i (insert_incidents now cs (db, refs)).0.incidents
unfolding insert_incidents
In-insert_incidents now [] db refs i m = m
In-insert_incidents now (c ∷ cs) db refs i m =
    let acc = insert_incident now c (db, refs) in
    In-insert_incidents now cs acc.0 acc.1 i (In-insert_incident now c db refs i m)

-- Opening incidents keeps those that there are, and the checks.
pub open_incidents-keeps :
    (pass : Pass) (size : ℕ) (db : Db) (i : Incident)
    → In i db.incidents
    → let db' = open_incidents pass size db in In i db'.incidents × (db'.checks ≡ db.checks)
unfolding open_incidents open_incidents_sql
open_incidents-keeps pass size db i m =
    let (inserted, opened) = open_incidents_sql size pass.open_at pass.open_locked db in
    let frame = enqueue-Frame alert_down pass.down_at opened inserted in
    (
      subst (In i) (sym frame.incidents)
          (In-insert_incidents pass.open_at (candidates size pass.open_locked db) db [] i m),
      frame.checks ∙ open_incidents_sql-checks size pass.open_at pass.open_locked db,
    )
