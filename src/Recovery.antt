-- ===== src/Recovery.antt =====
-- Ingestion and detection together: what a heartbeat means for an outage.
mod Examples
use silence_watch.Tables.Members.{mem-In}
use silence_watch.Queue.Enqueueing.{enqueue-Frame}
use silence_watch.Ingest.Recording.{ingest-recorded, state_after, upd-id}
use silence_watch.Ingest.Values.{to_lower}
use silence_watch.Tables.{Check, Db, Incident, alert_up, mem, success}
use silence_watch.Ingest.Sql.{ingest_sql, matches, upd}
use silence_watch.Queue.{Locked}
use silence_watch.Prelude.{
  Bool, In, In-any, In-filter, In-map, In-of_map, In-take_all, List, [], any, ap, arith, false,
  filter, if◌then◌else◌, length, map, nat_eq, none, not, refl, some, subst, sym, take, text_keys,
  true, ℕ, ◌&&◌, ◌==◌, ◌∙◌, ◌∷◌, ◌≡◌, ◌≤◌,
}
use silence_watch.Ingest.{IngestCommand, IngestOutcome, Runtime, Service, ingest, recorded}
use silence_watch.Ingest.Laws.{Effect, ingest-Effect, untouched, wrote}
use silence_watch.Detection.{
  Detector, Pass, advance_overdue_checks, due, is_well, open_incidents, resolvable,
  resolve_incidents, resolve_incidents_sql, resolve_row, resolving, tick,
}
use silence_watch.Detection.Advance.{UniqueIds, chosen}
use silence_watch.Detection.Calm.{In-advance_overdue_checks, open_incidents-keeps}

-- Ingestion touches no incident.
Effect-incidents :
    (command : IngestCommand) (at : ℕ) (db db' : Db) (o : IngestOutcome)
    → Effect command at db db' o
    → db'.incidents ≡ db.incidents
unfolding ingest_sql
Effect-incidents command at db db' o (untouched same a b) = rw same refl
Effect-incidents command at db db' o (wrote v key kind when_at same out) = rw same refl

filter-true_all :
    {A : Type 0} (p : A → Bool) (xs : List A) → ((a : A) → p a ≡ true) → filter p xs ≡ xs
filter-true_all p [] h = refl
filter-true_all p (x ∷ xs) h = rw (h x) (ap (λ ys. x ∷ ys) (filter-true_all p xs h))

resolve_row-chosen :
    (now : ℕ) (ids : List ℕ) (i : Incident)
    → mem i.id ids ≡ true
    → resolve_row now ids i ≡ record i { resolved_at = some now }
unfolding resolve_row
resolve_row-chosen now ids i h = rw h refl

-- An open incident of a check that is well is resolved by a pass that holds no row back.
resolve_incidents_sql-resolves :
    (limit now : ℕ) (locked : Locked) (db : Db) (i : Incident) (c : Check)
    → In i db.incidents
    → i.resolved_at ≡ none
    → In c db.checks
    → c.id ≡ i.check_id
    → is_well c.state ≡ true
    → ((x : ℕ) → locked x ≡ false)
    → length (filter (resolvable db.checks) db.incidents) ≤ limit
    → In
        (record i { resolved_at = some now })
        (resolve_incidents_sql limit now locked db).0.incidents
unfolding resolve_incidents_sql resolvable
resolve_incidents_sql-resolves limit now locked db i c m open_still n mine well free room =
    let test = λ (x : Check). (x.id == i.check_id) && is_well x.state in
    let sound : any test db.checks ≡ true = In-any test c db.checks n (rw well (ground arith)) in
    let chosen =
      In-filter (resolvable db.checks) i db.incidents m (rw open_still (rw sound refl)) in
    let unlocked = λ (x : Incident). not (locked x.id) in
    let rows = filter (resolvable db.checks) db.incidents in
    let whole = filter-true_all unlocked rows (λ x. rw (free x.id) refl) in
    let picked : In i (resolving limit locked db) =
      subst (λ xs. In i (take limit xs)) (sym whole) (In-take_all limit i rows room chosen) in
    let ids = map (λ (x : Incident). x.id) (resolving limit locked db) in
    subst (λ x. In x (map (resolve_row now ids) db.incidents))
      (resolve_row-chosen now ids i
        (mem-In i.id ids (In-map (λ (x : Incident). x.id) i (resolving limit locked db) picked)))
      (In-map (resolve_row now ids) i db.incidents m)

-- Ingestion keeps the ids of the checks.
Effect-UniqueIds :
    (command : IngestCommand) (at : ℕ) (db db' : Db) (o : IngestOutcome)
    → Effect command at db db' o
    → UniqueIds db.checks
    → UniqueIds db'.checks
unfolding ingest_sql
Effect-UniqueIds command at db db' o (untouched same a b) unique = rw same unique
Effect-UniqueIds command at db db' o (wrote v key kind when_at same out) unique =
    let f = λ (c : Check). if matches v c then upd v c else c in
    let keeps : (c : Check) → (f c).id ≡ c.id = λ c. ground (arith, upd-id v c) in
    subst (λ (t : Db). UniqueIds t.checks) (sym same)
      (λ a b m n e.
        let (x, k, p) = In-of_map f a db.checks m in
        let (y, l, q) = In-of_map f b db.checks n in
        let equal =
          sym (keeps x)
          ∙ ap (λ (c : Check). c.id) p
          ∙ e
          ∙ sym (ap (λ (c : Check). c.id) q)
          ∙ keeps y in
        sym p ∙ ap f (unique x y k l equal) ∙ q)

-- The tables when a pass comes to the incidents that it resolves.
abbrev pub before_resolving : Pass → ℕ → Detector → Db → Db
before_resolving pass batch_size d db =
    let checks = (advance_overdue_checks pass batch_size (d, db.checks)).1 in
    open_incidents pass batch_size (record db { checks = checks })

-- A heartbeat of success that is answered `recorded` ends the outage of its check. In tables where
-- checks have ids of their own and those with the key that was called have the id of the incident:
-- the next pass resolves the incident, at the instant of its statement, if the check is not due again
-- at the instants of the pass, no incident is locked, and a batch has room for all the incidents that
-- are to be resolved when the pass comes to them.
pub tick-recorded :
    (rt : Runtime) (s : Service) (db : Db) (command : IngestCommand) (arrived received_at : ℕ)
    (pass : Pass) (batch_size : ℕ) (d : Detector) (i : Incident)
    → command.kind ≡ success
    → (ingest rt (s, db) command arrived received_at).1 ≡ recorded
    → UniqueIds db.checks
    → In i db.incidents
    → i.resolved_at ≡ none
    → ((c : Check) → In c db.checks → c.ping_key ≡ to_lower command.ping_key → c.id ≡ i.check_id)
    → ((c : Check)
        → In c (ingest rt (s, db) command arrived received_at).0.1.checks
        → c.id ≡ i.check_id
        → (n : ℕ) → due (pass.advance_at n) c ≡ false)
    → ((x : ℕ) → pass.resolve_locked x ≡ false)
    → (let mid =
          before_resolving pass batch_size d (ingest rt (s, db) command arrived received_at).0.1 in
        length (filter (resolvable mid.checks) mid.incidents) ≤ batch_size)
    → let after = (ingest rt (s, db) command arrived received_at).0.1 in
      In
        (record i { resolved_at = some pass.resolve_at })
        (tick pass batch_size (d, after)).1.incidents
unfolding tick resolve_incidents is_well
tick-recorded rt s db command arrived received_at pass batch_size d i good done unique m open_still
      mine calm free room =
    let after = (ingest rt (s, db) command arrived received_at).0.1 in
    let effect = ingest-Effect rt s db command arrived received_at in
    let log = ingest-recorded rt s db command arrived received_at done in
    let same = Effect-incidents command received_at db after _ effect in
    let ids = Effect-UniqueIds command received_at db after _ effect unique in
    let well : is_well log.after.state ≡ true =
      ap is_well (log.state ∙ ap (λ k. state_after k log.before.state) good) in
    let owner : log.after.id ≡ i.check_id =
      log.same_check.0 ∙ mine log.before log.was_there log.called in
    let checks = (advance_overdue_checks pass batch_size (d, after.checks)).1 in
    let kept_check =
      In-advance_overdue_checks pass batch_size d after.checks log.after ids log.is_there
        (calm log.after log.is_there owner) in
    let (kept, kept_checks) =
      open_incidents-keeps pass batch_size (record after { checks = checks }) i
        (subst (In i) (sym same) m) in
    let mid = before_resolving pass batch_size d after in
    let resolved =
      resolve_incidents_sql-resolves batch_size pass.resolve_at pass.resolve_locked mid i log.after
        kept open_still (subst (In log.after) (sym kept_checks) kept_check) owner well free room in
    let closed = resolve_incidents_sql batch_size pass.resolve_at pass.resolve_locked mid in
    subst (In (record i { resolved_at = some pass.resolve_at }))
      (sym (enqueue-Frame alert_up pass.up_at closed.1 closed.0).incidents) resolved
