-- ===== src/Ingest/Recording.antt =====
-- What a heartbeat leaves in the database.
use silence_watch.Ingest.Values.{to_lower}
use silence_watch.Ingest.Laws.{Effect, ingest-Effect, untouched, wrote}
use silence_watch.Prelude.{
  All, In, In-append_left, In-map, In-of_filter, List, [], arith, false, filter, if◌then◌else◌, inl,
  length, map, nat_eq, refl, subst, sym, text_eq_iff, text_keys, true, ℕ, ◌++◌, ◌==◌, ◌∙◌, ◌∷◌, ◌≡◌,
  ◌≢◌,
}
use silence_watch.Tables.{
  Check, CheckState, Db, Ping, PingKind, down, fail, paused, start, success, up,
}
use silence_watch.Ingest.{
  IngestCommand, IngestOutcome, Runtime, Service, ingest, outcome_of, recorded,
}
use silence_watch.Ingest.Sql.{IngestValues, ingest_sql, matches, ping_of, upd}

-- The state that a ping of each kind leaves a watched check in.
abbrev pub state_after : PingKind → CheckState → CheckState
state_after start s = s
state_after success s = up
state_after fail s = down

-- The pings of one check.
abbrev pub pings_of : ℕ → List Ping → List Ping
pings_of i = filter (λ (p : Ping). p.check_id == i)

matches-paused : (v : IngestValues) (c : Check) → c.state ≡ paused → matches v c ≡ false
matches-paused v c h = ground arith

ingest_sql-keeps_paused :
    (v : IngestValues) (db : Db) (c : Check)
    → In c db.checks
    → c.state ≡ paused
    → In c (ingest_sql v db).0.checks
unfolding ingest_sql
ingest_sql-keeps_paused v db c m h =
    subst (λ d. In d (ingest_sql v db).0.checks) (rw (matches-paused v c h) refl)
      (In-map (λ d. if matches v d then upd v d else d) c db.checks m)

pings_of-none_new :
    (v : IngestValues) (i : ℕ) (cs : List Check) (ps : List Ping)
    → All (λ c. c.id ≡ i → c.state ≡ paused) cs
    → pings_of i (map (ping_of v) (filter (matches v) cs) ++ ps) ≡ pings_of i ps
unfolding ping_of
pings_of-none_new v i [] ps h = refl
pings_of-none_new v i (c ∷ cs) ps (first, h) =
    ground (arith, matches-paused v c, pings_of-none_new v i cs ps h)

touched : (cs : List Check) → outcome_of (length cs) ≡ recorded → (c : Check) × In c cs
touched [] h = cc
touched (c ∷ cs) h = (c, inl refl)

-- Everything that a recorded ping is expected to have done.
pub record Recorded (command : IngestCommand) (received_at : ℕ) (db db' : Db) : Type 0 where
  pub before : Check
  pub after : Check
  pub ping : Ping
  pub was_there : In before db.checks
  pub is_there : In after db'.checks
  pub is_logged : In ping db'.pings
  pub same_check : (after.id ≡ before.id) × (ping.check_id ≡ before.id)
  pub called : before.ping_key ≡ to_lower command.ping_key
  pub watched : before.state ≢ paused
  pub state : after.state ≡ state_after command.kind before.state
  pub seen : (ping.kind ≡ command.kind) × (ping.received_at ≡ received_at)

upd-state : (v : IngestValues) (c : Check) → (upd v c).state ≡ state_after v.kind c.state
unfolding upd
upd-state v c = ground arith

pub upd-id : (v : IngestValues) (c : Check) → (upd v c).id ≡ c.id
unfolding upd
upd-id v c = ground arith

matches-true :
    (v : IngestValues) (c : Check)
    → matches v c ≡ true
    → (c.ping_key ≡ v.ping_key) × (c.state ≢ paused)
matches-true v c h = (
  (text_eq_iff c.ping_key v.ping_key).0 (ground arith),
  λ e. ground (arith, matches-paused v c e),
)

ingest_sql-recorded :
    (command : IngestCommand) (v : IngestValues) (received_at : ℕ) (db : Db)
    → v.ping_key ≡ to_lower command.ping_key
    → v.kind ≡ command.kind
    → v.received_at ≡ received_at
    → outcome_of (ingest_sql v db).1 ≡ recorded
    → Recorded command received_at db (ingest_sql v db).0
unfolding ingest_sql ping_of
ingest_sql-recorded command v received_at db key kind at h =
    let (c, m) = touched (filter (matches v) db.checks) h in
    let (here, hit) = In-of_filter (matches v) c db.checks m in
    let (called, watched) = matches-true v c hit in
    record {
      before = c;
      after = upd v c;
      ping = ping_of v c;
      was_there = here;
      is_there =
          subst (λ d. In d (ingest_sql v db).0.checks) (rw hit refl)
            (In-map (λ d. if matches v d then upd v d else d) c db.checks here);
      is_logged =
          In-append_left (ping_of v c) (map (ping_of v) (filter (matches v) db.checks)) db.pings
            (In-map (ping_of v) c (filter (matches v) db.checks) m);
      same_check = (upd-id v c, refl);
      called = called ∙ key;
      watched = watched;
      state = rw (← kind) (upd-state v c);
      seen = (kind, at);
    }

module _ (rt : Runtime) (s : Service) (db : Db) (command : IngestCommand)
    (arrived received_at : ℕ) where
  abbrev after : Db
  after = (ingest rt (s, db) command arrived received_at).0.1

  Effect-paused :
      (o : IngestOutcome) (db' : Db) (c : Check)
      → Effect command received_at db db' o
      → In c db.checks
      → c.state ≡ paused
      → In c db'.checks
  Effect-paused o db' c (untouched same a b) m h = rw same m
  Effect-paused o db' c (wrote v key kind at same out) m h =
      rw same (ingest_sql-keeps_paused v db c m h)

  Effect-silent :
      (o : IngestOutcome) (db' : Db) (i : ℕ)
      → Effect command received_at db db' o
      → All (λ c. c.id ≡ i → c.state ≡ paused) db.checks
      → pings_of i db'.pings ≡ pings_of i db.pings
  unfolding ingest_sql
  Effect-silent o db' i (untouched same a b) h = rw same
  Effect-silent o db' i (wrote v key kind at same out) h =
      rw same (pings_of-none_new v i db.checks db.pings h)

  Effect-recorded :
      (o : IngestOutcome) (db' : Db)
      → Effect command received_at db db' o
      → o ≡ recorded
      → Recorded command received_at db db'
  Effect-recorded o db' (untouched same a b) h = absurd (a h)
  Effect-recorded o db' (wrote v key kind at same out) h =
      rw same (ingest_sql-recorded command v received_at db key kind at (sym out ∙ h))

  -- Whatever is sent to whatever key, a paused check whose id no other check has keeps its row as it
  -- is, and nothing is logged for it: a ping cannot revive it.
  pub ingest-paused :
      (c : Check)
      → In c db.checks
      → c.state ≡ paused
      → All (λ d. d.id ≡ c.id → d.state ≡ paused) db.checks
      → In c after.checks × (pings_of c.id after.pings ≡ pings_of c.id db.pings)
  ingest-paused c m h unique =
      let done = ingest-Effect rt s db command arrived received_at in
      (Effect-paused _ _ c done m h, Effect-silent _ _ c.id done unique)

  -- An answer of `recorded` means what it says: the check of that key was there and not paused, it
  -- is now in the state that the kind of ping puts it in, and the ping is in the log.
  pub ingest-recorded :
      (ingest rt (s, db) command arrived received_at).1 ≡ recorded
      → Recorded command received_at db after
  ingest-recorded h = Effect-recorded _ _ (ingest-Effect rt s db command arrived received_at) h
