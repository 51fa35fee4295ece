-- ===== src/Cache.antt =====
-- ingest/check-metadata.cache.ts: the cache of schedules by ping key. `Date.now()` is an argument.
-- A load that has been started and has not ended stands in `in_flight`; `get` is the part of the
-- source's method up to its query, `finish_load` the part after it.
pub mod Laws
mod Examples
use silence_watch.Prelude.{
  List, Option, Text, [], filter, if◌then◌else◌, leb, length, ltb, nat_eq, none, not, some, suc,
  text_eq, text_keys, ℕ, ◌+◌, ◌/◌, ◌∷◌,
}
use silence_watch.OrderedMap.{delete, get, set}
use silence_watch.Schedule.{Schedule}
use silence_watch.Tables.{Check}

pub record CheckMetadata : Type 0 where
  pub id : ℕ
  pub schedule : Schedule

pub record CacheEntry : Type 0 where
  pub metadata : Option CheckMetadata
  pub expires_at : ℕ

pub record Cache : Type 0 where
  pub entries : List (Text × CacheEntry)
  pub in_flight : List (Text × Unit {0})
  pub hits : ℕ
  pub misses : ℕ

abbrev pub positive_ttl_ms : ℕ
positive_ttl_ms = 300000

abbrev pub negative_ttl_ms : ℕ
negative_ttl_ms = 5000

abbrev pub max_entries : ℕ
max_entries = 100000

unfoldable pub empty : Cache
empty = record { entries = []; in_flight = []; hits = 0; misses = 0 }

-- What a call of `get` does: it answers from the cache, joins a load, or starts one.
pub data Lookup : Type 0 where
  served : Option CheckMetadata → Lookup
  joined loading : Lookup

unfoldable pub start_load : Cache → Text → Option (Unit {0}) → Cache × Lookup
start_load c key (some running) = (record c { misses = c.misses + 1 }, joined)
start_load c key none =
    (record c { misses = c.misses + 1; in_flight = set key tt c.in_flight }, loading)

unfoldable pub lookup_entry : Cache → Text → ℕ → Option CacheEntry → Cache × Lookup
unfolding start_load
lookup_entry c key now none = start_load c key (get key c.in_flight)
lookup_entry c key now (some entry) =
    if ltb now entry.expires_at
    then (record c { hits = c.hits + 1 }, served entry.metadata)
    else start_load c key (get key c.in_flight)

unfoldable pub get_cached : Cache → Text → ℕ → Cache × Lookup
unfolding lookup_entry
get_cached c key now = lookup_entry c key now (get key c.entries)

peek_entry : ℕ → Option CacheEntry → Option CheckMetadata
peek_entry now none = none
peek_entry now (some entry) = if ltb now entry.expires_at then entry.metadata else none

unfoldable pub peek : Cache → Text → ℕ → Option CheckMetadata
unfolding peek_entry
peek c key now = peek_entry now (get key c.entries)

unfoldable pub invalidate : Cache → Text → Cache
invalidate c key = record c { entries = delete key c.entries }

-- LOOKUP_SQL and the mapping of its row.
unfoldable pub load : List Check → Text → Option CheckMetadata
load [] key = none
load (c ∷ cs) key =
    if text_eq c.ping_key key
    then some (record { id = c.id; schedule = c.schedule })
    else load cs key

-- The second loop of `evict`, which drops keys from the front.
drop_oldest : ℕ → ℕ → List (Text × CacheEntry) → List (Text × CacheEntry)
drop_oldest dropped excess [] = []
drop_oldest dropped excess (x ∷ xs) =
    let rest = drop_oldest (suc dropped) excess xs in if leb excess (suc dropped) then xs else rest

-- A tenth of the limit, rounded up, is dropped if the expired entries were not enough.
evict : ℕ → List (Text × CacheEntry) → List (Text × CacheEntry)
unfolding drop_oldest
evict now entries =
    let live = filter (λ (x : Text × CacheEntry). not (leb x.1.expires_at now)) entries in
    if ltb (length live) max_entries then live else drop_oldest 0 ((max_entries + 9) / 10) live

ttl_of : Option CheckMetadata → ℕ
ttl_of none = negative_ttl_ms
ttl_of (some m) = positive_ttl_ms

store : Cache → Text → Option CheckMetadata → ℕ → Cache
unfolding evict ttl_of
store c key metadata now =
    let room = if leb max_entries (length c.entries) then evict now c.entries else c.entries in
    record c {
      entries = set key (record { metadata = metadata; expires_at = now + ttl_of metadata }) room;
    }

unfoldable pub finish_load : Cache → Text → Option CheckMetadata → ℕ → Cache
unfolding store
finish_load c key metadata now = record (store c key metadata now) {
  in_flight = delete key c.in_flight;
}
