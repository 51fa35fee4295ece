-- ===== src/Ingest/Answers.antt =====
-- When a heartbeat is refused, and when it is told that its key is unknown.
use silence_watch.OrderedMap.{get}
use silence_watch.RateLimiter.{RateLimiter, exceeded, hit}
use silence_watch.Ingest.Values.{is_uuid, to_lower}
use silence_watch.Ingest.Sql.{ingest_sql}
use silence_watch.Ingest.{
  IngestCommand, IngestOutcome, Runtime, Service, after_get, after_limit, after_peek, ingest,
  invalid, not_watched, outcome_of, rate_limited, recorded, resolve, source_of, unknown, values_of,
  write,
}
use silence_watch.Cache.{
  CacheEntry, CheckMetadata, get_cached, load, lookup_entry, peek, start_load,
}
use silence_watch.Tables.{Db}
use silence_watch.RateLimiter
use silence_watch.Prelude.{
  Bool-cases, Option, Text, arith, inl, inr, ltb, nat_eq, none, refl, some, suc, text_keys, true,
  zero, ℕ, ◌<◌, ◌≡◌, ◌⊎◌,
}

module _ (rt : Runtime) (s : Service) (db : Db) (command : IngestCommand)
    (arrived received_at : ℕ) where
  abbrev pub key_of : Text
  key_of = to_lower command.ping_key

  -- The service once the call is counted against its key.
  abbrev limited : Service
  limited = record s { per_key_limiter = (RateLimiter.hit s.per_key_limiter key_of arrived).0 }

  -- The answer that the cache holds for the key at the instant of the call.
  abbrev pub cached : Option CacheEntry
  cached = get key_of s.cache.entries

  write-known :
      (t : Service) (m : CheckMetadata)
      → let o = (write rt (t, db) command key_of m received_at).1 in
        (o ≡ recorded) ⊎ (o ≡ not_watched)
  unfolding write
  write-known t m = either (ingest_sql (values_of rt t command key_of m received_at) db).1
    where
      either : (n : ℕ) → (outcome_of n ≡ recorded) ⊎ (outcome_of n ≡ not_watched)
      either zero = inr refl
      either (suc n) = inl refl

  -- A key in the cache is served whatever its source has spent on unknown keys: only the limit of
  -- the key itself can refuse it.
  pub ingest-cached :
      (m : CheckMetadata)
      → is_uuid command.ping_key ≡ true
      → (RateLimiter.hit s.per_key_limiter key_of arrived).1 ≡ 0
      → peek s.cache key_of arrived ≡ some m
      → let o = (ingest rt (s, db) command arrived received_at).1 in
        (o ≡ recorded) ⊎ (o ≡ not_watched)
  unfolding ingest after_limit after_peek
  ingest-cached m uuid allowed known = rw (uuid, allowed, known, after_peek) (write-known limited m)

  abbrev IsStale : Option CacheEntry → Type 0
  IsStale none = ⊥
  IsStale (some entry) = (entry.metadata ≡ none) × (arrived < entry.expires_at)

  after_get-unknown :
      (t : Service) (source : Text) (m : Option CheckMetadata)
      → (after_get rt (t, db) command key_of source received_at m).1 ≡ unknown
      → m ≡ none
  unfolding after_get
  after_get-unknown t source none h = refl
  after_get-unknown t source (some m) h = elim (write-known t m) [ inl e ↦ cc | inr e ↦ cc ]

  resolve-none :
      (t : Service) (entry : Option CacheEntry)
      → (resolve t db.checks key_of received_at (lookup_entry t.cache key_of arrived entry)).1
        ≡ none
      → IsStale entry ⊎ (load db.checks key_of ≡ none)
  unfolding resolve lookup_entry start_load
  resolve-none t none h = inr (ground arith)
  resolve-none t (some entry) h = elim (Bool-cases (ltb arrived entry.expires_at)) [
    | inl fresh ↦ inl (ground arith)
    | inr old ↦ inr (ground arith)
  ]

  after_peek-unknown :
      (m : Option CheckMetadata)
      → (after_peek rt (limited, db) command key_of (source_of command.ip) arrived received_at m).1
        ≡ unknown
      → IsStale cached ⊎ (load db.checks key_of ≡ none)
  unfolding after_peek get_cached
  after_peek-unknown (some m) h = elim (write-known limited m) [ inl e ↦ cc | inr e ↦ cc ]
  after_peek-unknown none h =
      elim (Bool-cases
        (RateLimiter.exceeded limited.unknown_key_limiter (source_of command.ip) arrived)) [
          | inl spent ↦ let e : ◌≡◌ {A = IngestOutcome} rate_limited unknown = rw spent at h in cc
          | inr free ↦
              resolve-none limited cached
                (after_get-unknown _ (source_of command.ip) _ (rw free at h))
        ]

  -- "No such check" is only said of a key that was looked up: the database holds no check with it,
  -- or said so less than the negative time to live ago. In particular a refused source is told to
  -- come back, and not that its key is unknown.
  pub ingest-unknown :
      (ingest rt (s, db) command arrived received_at).1 ≡ unknown
      → IsStale cached ⊎ (load db.checks key_of ≡ none)
  unfolding ingest after_limit
  ingest-unknown h = elim (Bool-cases (is_uuid command.ping_key)) [
    | inr malformed ↦ let e : ◌≡◌ {A = IngestOutcome} invalid unknown = rw malformed at h in cc
    | inl uuid ↦ elim (Bool-cases (ltb 0 (RateLimiter.hit s.per_key_limiter key_of arrived).1)) [
      | inl refused ↦
          let e : ◌≡◌ {A = IngestOutcome} rate_limited unknown = rw (uuid, refused) at h in cc
      | inr allowed ↦ after_peek-unknown (peek s.cache key_of arrived) (rw (uuid, allowed) at h)
    ]
  ]
