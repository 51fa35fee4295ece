-- ===== src/Cache/Laws.antt =====
-- How fresh, how large and how busy the cache is.
use silence_watch.Prelude.{
  List, Option, Text, [], arith, filter, if◌then◌else◌, leb, length, length-filter-le, min, nat_eq,
  none, not, some, suc, text_eq, text_keys, ℕ, ◌+◌, ◌/◌, ◌<◌, ◌∷◌, ◌≡◌, ◌≤◌,
}
use silence_watch.OrderedMap.{beq_refl, get-delete, get-set, length-set-le, set}
use silence_watch.Cache.{
  Cache, CacheEntry, CheckMetadata, drop_oldest, evict, finish_load, get_cached, invalidate, joined,
  loading, lookup_entry, max_entries, peek, peek_entry, positive_ttl_ms, start_load, store, ttl_of,
}

length-drop_oldest :
    (dropped excess : ℕ) (xs : List (Text × CacheEntry))
    → dropped < excess
    → dropped + length xs ≤ excess + length (drop_oldest dropped excess xs)
unfolding drop_oldest
length-drop_oldest d x [] h = omega arith
length-drop_oldest d x (y ∷ ys) h = ground (arith, length-drop_oldest (suc d) x ys)

length-drop_oldest-le :
    (dropped excess : ℕ) (xs : List (Text × CacheEntry))
    → length (drop_oldest dropped excess xs) + min 1 (length xs) ≤ length xs
unfolding drop_oldest
length-drop_oldest-le d x [] = omega arith
length-drop_oldest-le d x (y ∷ ys) = ground (arith, length-drop_oldest-le (suc d) x ys)

length-evict-lt :
    (now : ℕ) (xs : List (Text × CacheEntry))
    → length xs ≤ max_entries
    → length (evict now xs) < max_entries
unfolding evict
length-evict-lt now xs h =
    let live = filter (λ (x : Text × CacheEntry). not (leb x.1.expires_at now)) xs in
    ground (
      arith,
      length-drop_oldest-le 0 ((max_entries + 9) / 10) live,
      length-filter-le (λ (x : Text × CacheEntry). not (leb x.1.expires_at now)) xs,
    )

-- A cache that is within its limit of entries still is when a load has ended.
pub length-finish_load :
    (c : Cache) (key : Text) (m : Option CheckMetadata) (now : ℕ)
    → length c.entries ≤ max_entries
    → length (finish_load c key m now).entries ≤ max_entries
unfolding finish_load store
length-finish_load c key m now h =
    let fresh : CacheEntry = record { metadata = m; expires_at = now + ttl_of m } in
    ground (
      arith,
      length-evict-lt now c.entries h,
      length-set-le key fresh (evict now c.entries),
      length-set-le key fresh c.entries,
    )

-- A loaded value is what every look at the key sees until its time to live has passed, and no
-- longer; after an edit invalidates the key the cache answers nothing for it.
pub peek-finish_load :
    (c : Cache) (key : Text) (m : CheckMetadata) (now later : ℕ)
    → (later < now + positive_ttl_ms → peek (finish_load c key (some m) now) key later ≡ some m)
      × (now + positive_ttl_ms ≤ later → peek (finish_load c key (some m) now) key later ≡ none)
      × (peek (invalidate (finish_load c key (some m) now) key) key later ≡ none)
unfolding peek peek_entry finish_load store invalidate ttl_of
peek-finish_load c key m now later =
    let fresh : CacheEntry = record { metadata = some m; expires_at = now + positive_ttl_ms } in
    let room = if leb max_entries (length c.entries) then evict now c.entries else c.entries in
    let found = get-set key key fresh room in
    let gone = get-delete key key (set key fresh room) in
    (
      λ h. ground (arith, found, beq_refl key),
      λ h. ground (arith, found, beq_refl key),
      ground (arith, gone, beq_refl key),
    )

-- After an invalidation the cache answers nothing for the key, and what it did for every other.
pub peek-invalidate :
    (c : Cache) (key j : Text) (now : ℕ)
    → peek (invalidate c key) j now ≡ (if text_eq key j then none else peek c j now)
unfolding peek peek_entry invalidate
peek-invalidate c key j now = ground (arith, get-delete key j c.entries)

-- A second miss on a key whose load has not ended starts no other load.
pub get_cached-joined :
    (c : Cache) (key : Text) (now later : ℕ)
    → (get_cached c key now).1 ≡ loading
    → now ≤ later
    → (get_cached (get_cached c key now).0 key later).1 ≡ joined
unfolding get_cached lookup_entry start_load
get_cached-joined c key now later h k = ground (arith, get-set key key tt c.in_flight, beq_refl key)
