-- ===== src/Retention/Keeping.antt =====
-- What a purge may not delete, and what it must.
use silence_watch.Pages.{PingRow}
use silence_watch.Tables.{Check, Delivery, Incident, pending}
use silence_watch.Retention.{
  ProjectRow, PurgeClock, RetentionDb, batch_size, dead_incident, dead_ping, find_project,
  kept_delivery, max_batches, older, older_check, purge, purge_batches,
}
use silence_watch.Quotas.{QuotaConfig}
use silence_watch.Retention.Loops.{dead-gone, live-kept}
use silence_watch.Checks.{find_by_id}
use silence_watch.Tables.Members.{IsKeyed}
use silence_watch.Prelude.{
  Bool, In, In-any, In-filter, Option, any, arith, false, filter, length, nat_eq, none, refl, some,
  sym, text_keys, true, ℕ, ◌==◌, ◌∙◌, ◌≡◌, ◌≤◌,
}

young-live : (b c : Bool) → (b ≡ true → c ≡ true) → c ≡ false → b ≡ false
young-live false c h e = refl
young-live true c h e = let clash = sym (h refl) ∙ e in cc

-- A row that is past its window stays so.
module _ (cfg : QuotaConfig) (default_days now later : ℕ) (db : RetentionDb) (h : now ≤ later) where
  older-later :
      (at : ℕ) (p : Option ProjectRow)
      → older cfg default_days now db at p ≡ true
      → older cfg default_days later db at p ≡ true
  older-later at none e = e
  older-later at (some p) e = ground arith

  older_check-later :
      (at : ℕ) (c : Option Check)
      → older_check cfg default_days now db at c ≡ true
      → older_check cfg default_days later db at c ≡ true
  older_check-later at none e = e
  older_check-later at (some c) e = older-later at (find_project c.project_id db.projects) e

  dead_ping-later :
      (p : PingRow)
      → dead_ping cfg default_days now db p ≡ true
      → dead_ping cfg default_days later db p ≡ true
  unfolding dead_ping
  dead_ping-later p e =
      older_check-later p.ping.received_at (find_by_id p.ping.check_id db.checks) e

module _ (cfg : QuotaConfig) (default_days : ℕ) (clock : PurgeClock) (db : RetentionDb) where
  -- Where the ids of pings are a primary key, and the statements on pings run between the instants
  -- `first` and `last`: a purge leaves every ping that is younger than the window of its project at
  -- the last instant, and none that is older at the first, if those that are older at the last are
  -- two million at most.
  pub purge-pings :
      (first last : ℕ) (p : PingRow)
      → ((n : ℕ) → first ≤ clock.pings_at n)
      → ((n : ℕ) → clock.pings_at n ≤ last)
      → IsKeyed (λ (r : PingRow). r.id) db.pings
      → length (filter (dead_ping cfg default_days last db) db.pings) ≤ 2000000
      → let after = (purge cfg default_days clock db).0 in
        (In p db.pings → dead_ping cfg default_days last db p ≡ false → In p after.pings)
        × (In p after.pings → dead_ping cfg default_days first db p ≡ false)
  unfolding purge
  purge-pings first last p begun ended keyed enough =
      let id_of = λ (r : PingRow). r.id in
      let dead = λ (n : ℕ). dead_ping cfg default_days (clock.pings_at n) db in
      let sure = dead_ping cfg default_days first db in
      let possible = dead_ping cfg default_days last db in
      let always : (n : ℕ) (r : PingRow) → sure r ≡ true → dead n r ≡ true =
        λ n r. dead_ping-later cfg default_days first (clock.pings_at n) db (begun n) r in
      let sometimes : (n : ℕ) (r : PingRow) → dead n r ≡ true → possible r ≡ true =
        λ n r. dead_ping-later cfg default_days (clock.pings_at n) last db (ended n) r in
      (
        λ m young.
            live-kept id_of dead batch_size max_batches 0 db.pings p keyed m
              (λ n. young-live (dead n p) (possible p) (sometimes n p) young),
        dead-gone id_of dead batch_size sure possible always sometimes max_batches 0 db.pings p
            keyed enough,
      )

  -- Where the ids of incidents are a primary key, a purge deletes no open incident, and no pending
  -- delivery of one.
  pub purge-open :
      (i : Incident) (d : Delivery)
      → IsKeyed (λ (x : Incident). x.id) db.incidents
      → In i db.incidents
      → i.resolved_at ≡ none
      → let after = (purge cfg default_days clock db).0 in
        In i after.incidents
        × (In d db.deliveries → d.incident_id ≡ i.id → d.status ≡ pending → In d after.deliveries)
  unfolding purge dead_incident kept_delivery
  purge-open i d keyed m open_still =
      let dead = λ (n : ℕ). dead_incident cfg default_days (clock.incidents_at n) db in
      let id_of = λ (x : Incident). x.id in
      let kept =
        live-kept id_of dead batch_size max_batches 0 db.incidents i keyed m
          (λ n. rw open_still refl) in
      let after = (purge_batches id_of dead batch_size max_batches 0 db.incidents).0 in
      let owned = λ (x : Delivery). any (λ (j : Incident). j.id == x.incident_id) after in
      (
        kept,
        λ n mine waits.
            In-filter (kept_delivery clock.deliveries_at) d (filter owned db.deliveries)
              (In-filter owned d db.deliveries n (
                In-any (λ (j : Incident). j.id == d.incident_id) i after kept
                  (rw mine (ground arith))))
              (rw waits refl),
      )
