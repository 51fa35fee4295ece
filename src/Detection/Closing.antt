-- ===== src/Detection/Closing.antt =====
-- RESOLVE_INCIDENTS_SQL: an incident stays open until its check is well.
use silence_watch.Prelude.{
  Bool-cases, In, In-any, In-map, In-of_append_one, In-of_filter, In-of_map, In-of_take, List, [],
  any-In, ap, arith, false, filter, inl, inr, map, nat_eq, not, refl, subst, sym, text_keys, true,
  ℕ, ◌&&◌, ◌++◌, ◌+◌, ◌<◌, ◌==◌, ◌∙◌, ◌∷◌, ◌≡◌,
}
use silence_watch.Tables.{Check, Db, Incident, mem}
use silence_watch.Tables.Members.{In-mem}
use silence_watch.Queue.{IncidentRef, Locked}
use silence_watch.Detection.{
  candidates, has_open, insert_incident, insert_incidents, is_open, is_well, new_incident,
  open_incidents_sql, resolvable, resolve_incidents_sql, resolve_row, resolving,
}
use silence_watch.Detection.Opening.{IsNumbered, OwnIds}

-- Adding an incident with the next id.
append-IsNumbered :
    (db : Db) (new_one : Incident)
    → new_one.id ≡ db.next_id
    → IsNumbered db
    → IsNumbered (record db { incidents = db.incidents ++ new_one ∷ []; next_id = db.next_id + 1 })
append-IsNumbered db x fresh wf = record {
  own = λ i j m n same. elim (In-of_append_one i x db.incidents m) as (λ _. i ≡ j) [
    | inl a ↦ elim (In-of_append_one j x db.incidents n) as (λ _. i ≡ j) [
      | inl b ↦ wf.own i j a b same
      | inr e ↦ absurd (omega (arith, wf.below i a, ap (λ (y : Incident). y.id) e, fresh, same))
    ]
    | inr e ↦ elim (In-of_append_one j x db.incidents n) as (λ _. i ≡ j) [
      | inl b ↦ absurd (omega (arith, wf.below j b, ap (λ (y : Incident). y.id) e, fresh, same))
      | inr f ↦ sym e ∙ f
    ]
  ];
  below = λ i m. elim (In-of_append_one i x db.incidents m) as (λ _. i.id < db.next_id + 1) [
    | inl a ↦ omega (arith, wf.below i a)
    | inr e ↦ omega (arith, ap (λ (y : Incident). y.id) e, fresh)
  ];
}

insert_incident-IsNumbered :
    (now : ℕ) (c : Check) (db : Db) (refs : List IncidentRef)
    → IsNumbered db
    → IsNumbered (insert_incident now c (db, refs)).0
unfolding insert_incident new_incident
insert_incident-IsNumbered now c db refs wf = elim (Bool-cases (has_open db.incidents c.id)) [
  | inl held ↦ rw held wf
  | inr fresh ↦ rw fresh (append-IsNumbered db (new_incident now db c) refl wf)
]

insert_incidents-IsNumbered :
    (now : ℕ) (cs : List Check) (db : Db) (refs : List IncidentRef)
    → IsNumbered db
    → IsNumbered (insert_incidents now cs (db, refs)).0
unfolding insert_incidents
insert_incidents-IsNumbered now [] db refs wf = wf
insert_incidents-IsNumbered now (c ∷ cs) db refs wf =
    let acc = insert_incident now c (db, refs) in
    insert_incidents-IsNumbered now cs acc.0 acc.1 (insert_incident-IsNumbered now c db refs wf)

insert_incident-checks :
    (now : ℕ) (c : Check) (db : Db) (refs : List IncidentRef)
    → (insert_incident now c (db, refs)).0.checks ≡ db.checks
unfolding insert_incident
insert_incident-checks now c db refs = ground arith

insert_incidents-checks :
    (now : ℕ) (cs : List Check) (db : Db) (refs : List IncidentRef)
    → (insert_incidents now cs (db, refs)).0.checks ≡ db.checks
unfolding insert_incidents
insert_incidents-checks now [] db refs = refl
insert_incidents-checks now (c ∷ cs) db refs =
    let acc = insert_incident now c (db, refs) in
    insert_incidents-checks now cs acc.0 acc.1 ∙ insert_incident-checks now c db refs

-- An incident that is selected has a check that is well.
resolving-resolvable :
    (limit : ℕ) (locked : Locked) (db : Db) (i : Incident)
    → In i (resolving limit locked db)
    → In i db.incidents × (resolvable db.checks i ≡ true)
unfolding resolving
resolving-resolvable limit locked db i m =
    let free = λ (x : Incident). not (locked x.id) in
    In-of_filter (resolvable db.checks) i db.incidents
      (In-of_filter free i (filter (resolvable db.checks) db.incidents) (In-of_take limit i _ m)).0

-- Not one of the checks with this id is up or paused.
abbrev pub IsUnwell : List Check → ℕ → Type 0
IsUnwell cs check = (c : Check) → In c cs → c.id ≡ check → is_well c.state ≡ false

unwell-unresolvable :
    (cs : List Check) (i : Incident) → IsUnwell cs i.check_id → ¬ (resolvable cs i ≡ true)
unfolding resolvable
unwell-unresolvable cs i unwell h =
    let test = λ (c : Check). (c.id == i.check_id) && is_well c.state in
    let (c, m, k) = any-In test cs (ground arith) in
    absurd (ground (arith, unwell c m (ground arith)))

unwell-kept :
    (limit now : ℕ) (locked : Locked) (db : Db) (i : Incident)
    → OwnIds db.incidents
    → In i db.incidents
    → IsUnwell db.checks i.check_id
    → resolve_row now (map (λ (x : Incident). x.id) (resolving limit locked db)) i ≡ i
unfolding resolve_row
unwell-kept limit now locked db i own m unwell =
    let ids = map (λ (x : Incident). x.id) (resolving limit locked db) in
    elim (Bool-cases (mem i.id ids)) [
      | inr other ↦ rw other refl
      | inl taken ↦
          let (j, n, same) =
            In-of_map (λ (x : Incident). x.id) i.id (resolving limit locked db)
              (In-mem i.id ids taken) in
          let (k, h) = resolving-resolvable limit locked db j n in
          absurd (
            unwell-unresolvable db.checks i unwell
              (subst (λ x. resolvable db.checks x ≡ true) (own j i k m same) h))
    ]

-- The statement leaves open the incident of a check that is neither up nor paused.
pub resolve_incidents_sql-unwell :
    (limit now check : ℕ) (locked : Locked) (db : Db)
    → OwnIds db.incidents
    → IsUnwell db.checks check
    → has_open db.incidents check ≡ true
    → has_open (resolve_incidents_sql limit now locked db).0.incidents check ≡ true
unfolding resolve_incidents_sql has_open
resolve_incidents_sql-unwell limit now check locked db own unwell h =
    let test = λ (i : Incident). (i.check_id == check) && is_open i in
    let ids = map (λ (x : Incident). x.id) (resolving limit locked db) in
    let (i, m, k) = any-In test db.incidents h in
    let kept = unwell-kept limit now locked db i own m (λ c n e. unwell c n (ground arith)) in
    In-any test i (map (resolve_row now ids) db.incidents)
      (subst (λ x. In x (map (resolve_row now ids) db.incidents)) kept
        (In-map (resolve_row now ids) i db.incidents m))
      k

pub resolve_incidents_sql-checks :
    (limit now : ℕ) (locked : Locked) (db : Db)
    → (resolve_incidents_sql limit now locked db).0.checks ≡ db.checks
unfolding resolve_incidents_sql
resolve_incidents_sql-checks limit now locked db = refl

pub open_incidents_sql-checks :
    (limit now : ℕ) (locked : Locked) (db : Db)
    → (open_incidents_sql limit now locked db).0.checks ≡ db.checks
unfolding open_incidents_sql
open_incidents_sql-checks limit now locked db =
    insert_incidents-checks now (candidates limit locked db) db []

pub open_incidents_sql-IsNumbered :
    (limit now : ℕ) (locked : Locked) (db : Db)
    → IsNumbered db
    → IsNumbered (open_incidents_sql limit now locked db).0
unfolding open_incidents_sql
open_incidents_sql-IsNumbered limit now locked db =
    insert_incidents-IsNumbered now (candidates limit locked db) db []
