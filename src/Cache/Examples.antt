-- ===== src/Cache/Examples.antt =====
-- One key, loaded into an empty cache.
use silence_watch.OrderedMap.{get}
use silence_watch.Prelude.{Text, [], arith, length, nat_eq, none, refl, text, text_keys, ◌≡◌, ◌≤◌}
use silence_watch.Schedule.{interval}
use silence_watch.Cache.{
  CheckMetadata, empty, get_cached, loading, lookup_entry, max_entries, start_load,
}

abbrev key : Text
key = text "0b1f7a52"

abbrev metadata : CheckMetadata
metadata = record {
  id = 1;
  schedule = record {
    schedule_type = interval;
    period_seconds = none;
    cron_expression = none;
    timezone = [];
  };
}

few : length empty.entries ≤ max_entries
unfolding empty
few = omega arith

load_started : (get_cached empty key 1000).1 ≡ loading
unfolding get_cached lookup_entry start_load empty get
load_started = refl
