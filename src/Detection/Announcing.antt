-- ===== src/Detection/Announcing.antt =====
-- OPEN_INCIDENTS_SQL and the alerts of the incidents that it returns.
use silence_watch.Prelude.{
  All, All-of_In, Bool-cases, In, In-append_left, In-append_right, In-of_filter, List, [],
  any-append_one, ap, arith, false, filter, inl, inr, length, nat_eq, none, not, refl, subst, sym,
  text_keys, ℕ, ◌&&◌, ◌==◌, ◌∙◌, ◌∷◌, ◌≡◌, ◌≤◌,
}
use silence_watch.Tables.{Channel, Check, Db, Incident, alert_down, down, state_eq}
use silence_watch.Queue.{IncidentRef, Locked, wanted}
use silence_watch.Queue.Enqueueing.{IsQueued, enqueue-Frame}
use silence_watch.Queue.Reach.{enqueue-reaches}
use silence_watch.Detection.{
  Pass, candidates, has_open, insert_incident, insert_incidents, is_open, new_incident,
  open_incidents, open_incidents_sql,
}
use silence_watch.Detection.Opening.{unopened, unopened-candidates}
use silence_watch.Detection.Closing.{open_incidents_sql-checks}

-- The table has an open incident of the check that the statement has returned.
abbrev pub IsReturned : ℕ → Db × List IncidentRef → Type 0
IsReturned check (db, refs) =
    (i : Incident) × In i db.incidents
    × (i.check_id ≡ check)
    × (i.resolved_at ≡ none)
    × In (record { incident_id = i.id; check_id = check }) refs

insert_incident-keeps_IsReturned :
    (now check : ℕ) (c : Check) (db : Db) (refs : List IncidentRef)
    → IsReturned check (db, refs)
    → IsReturned check (insert_incident now c (db, refs))
unfolding insert_incident
insert_incident-keeps_IsReturned now check c db refs (i, m, e, o, n) =
    elim (Bool-cases (has_open db.incidents c.id)) [
      | inl held ↦ rw held (i, m, e, o, n)
      | inr fresh ↦ rw fresh (
        i,
        In-append_left i db.incidents (new_incident now db c ∷ []) m,
        e,
        o,
        In-append_left _ refs (record { incident_id = db.next_id; check_id = c.id } ∷ []) n,
      )
    ]

insert_incidents-keeps_IsReturned :
    (now check : ℕ) (cs : List Check) (db : Db) (refs : List IncidentRef)
    → IsReturned check (db, refs)
    → IsReturned check (insert_incidents now cs (db, refs))
unfolding insert_incidents
insert_incidents-keeps_IsReturned now check [] db refs h = h
insert_incidents-keeps_IsReturned now check (c ∷ cs) db refs h =
    let acc = insert_incident now c (db, refs) in
    insert_incidents-keeps_IsReturned now check cs acc.0 acc.1
      (insert_incident-keeps_IsReturned now check c db refs h)

insert_incident-returns :
    (now : ℕ) (c : Check) (db : Db) (refs : List IncidentRef)
    → has_open db.incidents c.id ≡ false
    → IsReturned c.id (insert_incident now c (db, refs))
unfolding insert_incident new_incident
insert_incident-returns now c db refs fresh = rw fresh (
  new_incident now db c,
  In-append_right (new_incident now db c) db.incidents (new_incident now db c ∷ []) (inl refl),
  refl,
  refl,
  In-append_right (record { incident_id = db.next_id; check_id = c.id }) refs
      (record { incident_id = db.next_id; check_id = c.id } ∷ []) (inl refl),
)

insert_incident-other :
    (now check : ℕ) (c : Check) (db : Db) (refs : List IncidentRef)
    → (c.id == check) ≡ false
    → has_open (insert_incident now c (db, refs)).0.incidents check ≡ has_open db.incidents check
unfolding insert_incident has_open new_incident
insert_incident-other now check c db refs other = ground (
  arith,
  any-append_one (λ (i : Incident). (i.check_id == check) && is_open i) db.incidents
      (new_incident now db c),
)

later : (c x : Check) (cs : List Check) → (x.id == c.id) ≡ false → In c (x ∷ cs) → In c cs
later c x cs other (inl e) = absurd (ground (arith, ap (λ (y : Check). y.id) e))
later c x cs other (inr m) = m

insert_incidents-returns :
    (now : ℕ) (c : Check) (cs : List Check) (db : Db) (refs : List IncidentRef)
    → has_open db.incidents c.id ≡ false
    → In c cs
    → IsReturned c.id (insert_incidents now cs (db, refs))
unfolding insert_incidents
insert_incidents-returns now c [] db refs fresh m = absurd m
insert_incidents-returns now c (x ∷ cs) db refs fresh m =
    let acc = insert_incident now x (db, refs) in
    elim (Bool-cases (x.id == c.id)) [
      | inl same ↦
          let equal : x.id ≡ c.id = ground arith in
          subst (λ i. IsReturned i (insert_incidents now cs acc)) equal
            (insert_incidents-keeps_IsReturned now x.id cs acc.0 acc.1
              (insert_incident-returns now x db refs (ground arith)))
      | inr other ↦
          insert_incidents-returns now c cs acc.0 acc.1
            (insert_incident-other now c.id x db refs other ∙ fresh) (later c x cs other m)
    ]

open_incidents_sql-returns :
    (limit now : ℕ) (locked : Locked) (db : Db) (c : Check)
    → ((i : ℕ) → locked i ≡ false)
    → length (unopened db) ≤ limit
    → In c (unopened db)
    → has_open db.incidents c.id ≡ false
    → IsReturned c.id (open_incidents_sql limit now locked db)
unfolding open_incidents_sql
open_incidents_sql-returns limit now locked db c free fits m fresh =
    insert_incidents-returns now c (candidates limit locked db) db [] fresh
      (unopened-candidates limit locked db c free fits m)

insert_incident-channels :
    (now : ℕ) (c : Check) (db : Db) (refs : List IncidentRef)
    → (insert_incident now c (db, refs)).0.channels ≡ db.channels
unfolding insert_incident
insert_incident-channels now c db refs = ground arith

insert_incidents-channels :
    (now : ℕ) (cs : List Check) (db : Db) (refs : List IncidentRef)
    → (insert_incidents now cs (db, refs)).0.channels ≡ db.channels
unfolding insert_incidents
insert_incidents-channels now [] db refs = refl
insert_incidents-channels now (c ∷ cs) db refs =
    let acc = insert_incident now c (db, refs) in
    insert_incidents-channels now cs acc.0 acc.1 ∙ insert_incident-channels now c db refs

open_incidents_sql-channels :
    (limit now : ℕ) (locked : Locked) (db : Db)
    → (open_incidents_sql limit now locked db).0.channels ≡ db.channels
unfolding open_incidents_sql
open_incidents_sql-channels limit now locked db =
    insert_incidents-channels now (candidates limit locked db) db []

-- The channels that an alert of a check goes to.
abbrev pub channels_for : Check → List Channel → List Channel
channels_for c = filter (λ (ch : Channel). (ch.project_id == c.project_id) && ch.enabled)

-- With no row locked and room for all the checks that wait for an incident, each of them has an open
-- incident after the statement, whose `down` is queued on every enabled channel of its project.
pub open_incidents-announces :
    (pass : Pass) (size : ℕ) (db : Db) (c : Check)
    → ((i : ℕ) → pass.open_locked i ≡ false)
    → length (unopened db) ≤ size
    → In c (unopened db)
    → let db' = open_incidents pass size db in
      (i : Incident) × In i db'.incidents
      × (i.check_id ≡ c.id)
      × (i.resolved_at ≡ none)
      × All (λ (ch : Channel). IsQueued alert_down db' (i.id, ch.id)) (channels_for c db.channels)
unfolding open_incidents
open_incidents-announces pass size db c free fits m =
    let (inserted, opened) = open_incidents_sql size pass.open_at pass.open_locked db in
    let frame = enqueue-Frame alert_down pass.down_at opened inserted in
    let (k, fresh) =
      In-of_filter (λ (x : Check). state_eq x.state down && not (has_open db.incidents x.id)) c
        db.checks m in
    let (i, in_table, same, still_open, returned) =
      open_incidents_sql-returns size pass.open_at pass.open_locked db c free fits m
        (ground arith) in
    let listed = λ (ch : Channel). (ch.project_id == c.project_id) && ch.enabled in
    (
      i,
      subst (In i) (sym frame.incidents) in_table,
      same,
      still_open,
      All-of_In (channels_for c db.channels) (λ ch n.
          let (known, wanted) = In-of_filter listed ch db.channels n in
          enqueue-reaches pass.down_at opened inserted
            (record { incident_id = i.id; check_id = c.id }) c ch returned
            (subst (In c) (sym (open_incidents_sql-checks size pass.open_at pass.open_locked db)) k)
            refl
            (subst (In ch) (sym (open_incidents_sql-channels size pass.open_at pass.open_locked db))
              known)
            (ground arith) (ground arith)),
    )
