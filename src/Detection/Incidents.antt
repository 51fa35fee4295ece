-- ===== src/Detection/Incidents.antt =====
-- The incidents that a pass opens and closes.
use silence_watch.Queue.Enqueueing.{enqueue-Frame}
use silence_watch.Prelude.{
  Bool, Bool-cases, List, [], any-length, arith, count-map, filter, inl, inr, length,
  length-append_one, map, nat_eq, subst, sym, text_keys, true, ℕ, ◌&&◌, ◌==◌, ◌∷◌, ◌≡◌, ◌≤◌,
}
use silence_watch.Tables.{Check, Db, Incident, alert_down, alert_up}
use silence_watch.Queue.{IncidentRef, Locked}
use silence_watch.Detection.{
  Detector, Pass, advance_overdue_checks, candidates, has_open, insert_incident, insert_incidents,
  is_open, new_incident, open_incidents, open_incidents_sql, resolve_incidents,
  resolve_incidents_sql, resolve_row, resolving, tick,
}

-- The open incidents of a check.
abbrev pub open_of : ℕ → Incident → Bool
open_of check i = (i.check_id == check) && is_open i

abbrev pub open_count : List Incident → ℕ → ℕ
open_count is check = length (filter (open_of check) is)

-- No check has two open incidents.
abbrev pub IsSingle : List Incident → Type 0
IsSingle is = (check : ℕ) → open_count is check ≤ 1

insert_incident-IsSingle :
    (now : ℕ) (c : Check) (db : Db) (refs : List IncidentRef)
    → IsSingle db.incidents
    → IsSingle (insert_incident now c (db, refs)).0.incidents
unfolding insert_incident has_open new_incident
insert_incident-IsSingle now c db refs single check =
    elim (Bool-cases (has_open db.incidents c.id)) [
      | inl held ↦ rw held (single check)
      | inr fresh ↦ rw fresh (
          ground (
            arith,
            single check,
            any-length (open_of c.id) db.incidents fresh,
            length-append_one (open_of check) db.incidents (new_incident now db c),
          ))
    ]

insert_incidents-IsSingle :
    (now : ℕ) (cs : List Check) (db : Db) (refs : List IncidentRef)
    → IsSingle db.incidents
    → IsSingle (insert_incidents now cs (db, refs)).0.incidents
unfolding insert_incidents
insert_incidents-IsSingle now [] db refs single = single
insert_incidents-IsSingle now (c ∷ cs) db refs single =
    let acc = insert_incident now c (db, refs) in
    insert_incidents-IsSingle now cs acc.0 acc.1 (insert_incident-IsSingle now c db refs single)

resolve_row-open :
    (check now : ℕ) (ids : List ℕ) (i : Incident)
    → open_of check (resolve_row now ids i) ≡ true
    → open_of check i ≡ true
unfolding resolve_row
resolve_row-open check now ids i h = ground arith

resolve_incidents_sql-IsSingle :
    (limit now : ℕ) (locked : Locked) (db : Db)
    → IsSingle db.incidents
    → IsSingle (resolve_incidents_sql limit now locked db).0.incidents
unfolding resolve_incidents_sql
resolve_incidents_sql-IsSingle limit now locked db single check =
    let ids = map (λ (i : Incident). i.id) (resolving limit locked db) in
    omega (
      arith,
      single check,
      count-map (open_of check) (open_of check) (resolve_row now ids) db.incidents
          (resolve_row-open check now ids),
    )

open_incidents-IsSingle :
    (pass : Pass) (size : ℕ) (db : Db)
    → IsSingle db.incidents
    → IsSingle (open_incidents pass size db).incidents
unfolding open_incidents open_incidents_sql
open_incidents-IsSingle pass size db single =
    let acc = insert_incidents pass.open_at (candidates size pass.open_locked db) (db, []) in
    subst IsSingle (sym (enqueue-Frame alert_down pass.down_at acc.1 acc.0).incidents)
      (insert_incidents-IsSingle pass.open_at (candidates size pass.open_locked db) db [] single)

-- If no check has two open incidents, none has after a pass, whatever rows others hold.
pub tick-IsSingle :
    (pass : Pass) (size : ℕ) (d : Detector) (db : Db)
    → IsSingle db.incidents
    → IsSingle (tick pass size (d, db)).1.incidents
unfolding tick resolve_incidents
tick-IsSingle pass size d db single =
    let advanced = advance_overdue_checks pass size (d, db.checks) in
    let opened = open_incidents pass size (record db { checks = advanced.1 }) in
    let closed = resolve_incidents_sql size pass.resolve_at pass.resolve_locked opened in
    subst IsSingle (sym (enqueue-Frame alert_up pass.up_at closed.1 closed.0).incidents) (
      resolve_incidents_sql-IsSingle size pass.resolve_at pass.resolve_locked opened
        (open_incidents-IsSingle pass size (record db { checks = advanced.1 }) single))
