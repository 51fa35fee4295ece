-- ===== src/Detection/Opening.antt =====
-- OPEN_INCIDENTS_SQL and RESOLVE_INCIDENTS_SQL: which checks have an open incident.
use silence_watch.Prelude.{
  All-of_In, Bool-cases, In, In-filter, In-take_all, List, [], any-append_one, ap, arith, false,
  filter, filter-true, inl, inr, length, nat_eq, not, refl, subst, text_keys, true, ℕ, ◌&&◌, ◌<◌,
  ◌==◌, ◌∷◌, ◌≡◌, ◌≤◌,
}
use silence_watch.Tables.{Check, Db, Incident, down, state_eq}
use silence_watch.Queue.{IncidentRef, Locked}
use silence_watch.Detection.{
  candidates, has_open, insert_incident, insert_incidents, is_open, new_incident,
  open_incidents_sql,
}

-- The checks that are down and wait for an incident.
abbrev pub unopened : Db → List Check
unopened db =
    filter (λ (c : Check). state_eq c.state down && not (has_open db.incidents c.id)) db.checks

abbrev pub OwnIds : List Incident → Type 0
OwnIds is = (i j : Incident) → In i is → In j is → i.id ≡ j.id → i ≡ j

-- Each incident has an id of its own, below those that are still to be given out.
pub record IsNumbered (db : Db) : Type 0 where
  pub own : OwnIds db.incidents
  pub below : (i : Incident) → In i db.incidents → i.id < db.next_id

insert_incident-keeps :
    (now check : ℕ) (c : Check) (db : Db) (refs : List IncidentRef)
    → has_open db.incidents check ≡ true
    → has_open (insert_incident now c (db, refs)).0.incidents check ≡ true
unfolding insert_incident has_open
insert_incident-keeps now check c db refs h = ground (
  arith,
  any-append_one (λ (i : Incident). (i.check_id == check) && is_open i) db.incidents
      (new_incident now db c),
)

insert_incident-opens :
    (now : ℕ) (c : Check) (db : Db) (refs : List IncidentRef)
    → has_open (insert_incident now c (db, refs)).0.incidents c.id ≡ true
unfolding insert_incident has_open new_incident
insert_incident-opens now c db refs = ground (
  arith,
  any-append_one (λ (i : Incident). (i.check_id == c.id) && is_open i) db.incidents
      (new_incident now db c),
)

insert_incidents-keeps :
    (now check : ℕ) (cs : List Check) (db : Db) (refs : List IncidentRef)
    → has_open db.incidents check ≡ true
    → has_open (insert_incidents now cs (db, refs)).0.incidents check ≡ true
unfolding insert_incidents
insert_incidents-keeps now check [] db refs h = h
insert_incidents-keeps now check (c ∷ cs) db refs h =
    let acc = insert_incident now c (db, refs) in
    insert_incidents-keeps now check cs acc.0 acc.1 (insert_incident-keeps now check c db refs h)

insert_incidents-opens :
    (now : ℕ) (c : Check) (cs : List Check) (db : Db) (refs : List IncidentRef)
    → In c cs
    → has_open (insert_incidents now cs (db, refs)).0.incidents c.id ≡ true
unfolding insert_incidents
insert_incidents-opens now c [] db refs m = absurd m
insert_incidents-opens now c (x ∷ cs) db refs (inl e) =
    let acc = insert_incident now x (db, refs) in
    subst (λ (y : Check). has_open (insert_incidents now cs acc).0.incidents y.id ≡ true) e
      (insert_incidents-keeps now x.id cs acc.0 acc.1 (insert_incident-opens now x db refs))
insert_incidents-opens now c (x ∷ cs) db refs (inr m) =
    let acc = insert_incident now x (db, refs) in insert_incidents-opens now c cs acc.0 acc.1 m

-- With no row locked and room for all, every check that waits is selected.
pub unopened-candidates :
    (limit : ℕ) (locked : Locked) (db : Db) (c : Check)
    → ((i : ℕ) → locked i ≡ false)
    → length (unopened db) ≤ limit
    → In c (unopened db)
    → In c (candidates limit locked db)
unfolding candidates
unopened-candidates limit locked db c unlocked fits m =
    let free = λ (x : Check). not (locked x.id) in
    let all_free =
      filter-true free (unopened db) (All-of_In (unopened db) (λ x n. ap not (unlocked x.id))) in
    In-take_all limit c (filter free (unopened db)) (omega (arith, fits, ap length all_free))
      (In-filter free c (unopened db) m (ap not (unlocked c.id)))

-- With no row locked, and a batch with room for all the checks that wait for an incident, every
-- check that is down has an open incident after the statement.
pub open_incidents_sql-opens :
    (limit now : ℕ) (locked : Locked) (db : Db) (c : Check)
    → ((i : ℕ) → locked i ≡ false)
    → length (unopened db) ≤ limit
    → In c db.checks
    → c.state ≡ down
    → has_open (open_incidents_sql limit now locked db).0.incidents c.id ≡ true
unfolding open_incidents_sql
open_incidents_sql-opens limit now locked db c unlocked fits m is_down =
    let waits = λ (x : Check). state_eq x.state down && not (has_open db.incidents x.id) in
    let rows = candidates limit locked db in
    elim (Bool-cases (has_open db.incidents c.id)) [
      | inl held ↦ insert_incidents-keeps now c.id rows db [] held
      | inr fresh ↦ insert_incidents-opens now c rows db [] (
          unopened-candidates limit locked db c unlocked fits
            (In-filter waits c db.checks m (rw fresh (rw is_down refl))))
    ]
