-- ===== src/Ingest/Laws.antt =====
-- What one heartbeat does to the database, and what each answer means.
use silence_watch.RateLimiter
use silence_watch.Prelude.{
  Bool-cases, Option, Text, inl, inr, ltb, nat_eq, none, refl, some, text_keys, ℕ, ◌≡◌, ◌≢◌,
}
use silence_watch.RateLimiter.{RateLimiter, exceeded, hit}
use silence_watch.Tables.{Db}
use silence_watch.Cache.{CheckMetadata}
use silence_watch.Ingest.{
  IngestCommand, IngestOutcome, Runtime, Service, after_get, after_limit, after_peek, ingest,
  not_watched, outcome_of, recorded, source_of, values_of, write,
}
use silence_watch.Ingest.Sql.{IngestValues, ingest_sql}
use silence_watch.Ingest.Values.{is_uuid, to_lower}

-- What a call did to the database: nothing, or one run of the statement for the key that was
-- called, of which the outcome reports the row count.
pub data Effect (command : IngestCommand) (received_at : ℕ) (db db' : Db)
    : IngestOutcome → Type 0 where
  untouched :
      {o : IngestOutcome}
      → db' ≡ db
      → o ≢ recorded
      → o ≢ not_watched
      → Effect command received_at db db' o
  wrote :
      {o : IngestOutcome} (v : IngestValues)
      → v.ping_key ≡ to_lower command.ping_key
      → v.kind ≡ command.kind
      → v.received_at ≡ received_at
      → db' ≡ (ingest_sql v db).0
      → o ≡ outcome_of (ingest_sql v db).1
      → Effect command received_at db db' o

module _ (rt : Runtime) (s : Service) (db : Db) (command : IngestCommand)
    (arrived received_at : ℕ) where
  after_get-Effect :
      (t : Service) (source : Text) (m : Option CheckMetadata)
      → let r = after_get rt (t, db) command (to_lower command.ping_key) source received_at m in
        Effect command received_at db r.0.1 r.1
  unfolding after_get write values_of
  after_get-Effect t source none = untouched refl (λ e. cc) (λ e. cc)
  after_get-Effect t source (some m) = wrote _ refl refl refl refl refl

  after_peek-Effect :
      (t : Service) (source : Text) (m : Option CheckMetadata)
      → let r =
          after_peek rt (t, db) command (to_lower command.ping_key) source arrived received_at m in
        Effect command received_at db r.0.1 r.1
  unfolding after_peek write values_of
  after_peek-Effect t source (some m) = wrote _ refl refl refl refl refl
  after_peek-Effect t source none =
      elim (Bool-cases (RateLimiter.exceeded t.unknown_key_limiter source arrived)) [
        | inl spent ↦ rw spent (untouched refl (λ e. cc) (λ e. cc))
        | inr free ↦ rw free (after_get-Effect _ source _)
      ]

  pub ingest-Effect :
      let r = ingest rt (s, db) command arrived received_at in
      Effect command received_at db r.0.1 r.1
  unfolding ingest after_limit
  ingest-Effect = elim (Bool-cases (is_uuid command.ping_key)) [
    | inr malformed ↦ rw malformed (untouched refl (λ e. cc) (λ e. cc))
    | inl uuid ↦
        rw uuid
          (elim (Bool-cases
            (ltb 0 (RateLimiter.hit s.per_key_limiter (to_lower command.ping_key) arrived).1)) [
              | inl refused ↦ rw refused (untouched refl (λ e. cc) (λ e. cc))
              | inr allowed ↦ rw allowed (after_peek-Effect _ (source_of command.ip) _)
            ])
  ]
