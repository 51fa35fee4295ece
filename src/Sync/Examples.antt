-- ===== src/Sync/Examples.antt =====
-- One job, declared twice.
use silence_watch.Prelude.{
  List, Result, Rows, Text, [], err, length, map, nat_eq, none, ok, refl, some, text, text_keys,
  true, ℕ, ◌+◌, ◌∷◌, ◌≡◌, ◌≤◌,
}
use silence_watch.Prelude.Int.{pos}
use silence_watch.Schedule.{compute_next_due_at, interval}
use silence_watch.Sync.{SyncRow, apply_check_quota, find_existing_keys, upsert, upsert_row}
use silence_watch.Sync.Ceiling.{sync_within_quota-ceiling}
use silence_watch.Sync.Declaring.{
  SyncCheck, SyncError, SyncRequest, declared_rows, duplicate_key, sync_within_quota,
}
use silence_watch.Slugs.{sync_slug}
use silence_watch.Tables.{Check}
use silence_watch.Sync.Laws.{IsSteady, upsert_row-IsSteady}

abbrev job : ℕ → SyncRow
job due_at = record {
  key = text "backup#run";
  name = text "Backup";
  slug = text "backup-0f0f0f0f";
  schedule = record {
    schedule_type = interval;
    period_seconds = some (pos 3600);
    cron_expression = none;
    timezone = text "UTC";
  };
  grace_seconds = 300;
  tags = [];
  next_due_at = due_at;
}

abbrev key_of : ℕ → Text
key_of id = text "0b1f7a52"

upsert_row-IsSteady_example :
    let t = upsert_row key_of 1000 7 none (job 3601000) ([], 1) in
    Rows IsSteady t.0 (upsert_row key_of 9000 7 none (job 3609000) t).0
upsert_row-IsSteady_example =
    upsert_row-IsSteady key_of 7 none 1000 9000 (job 3601000) (job 3609000) [] 1 refl refl

abbrev declared_job : SyncCheck
declared_job = record {
  key = text "backup#run";
  name = text "Backup";
  cron_text = none;
  interval_seconds = 3600;
  timezone = none;
  grace_seconds = none;
  tags = [];
}

abbrev same : Text → Text
same s = s

abbrev without_slugs : Result SyncError (List SyncRow) → Result SyncError (List SyncRow)
without_slugs (ok rows) =
    ok (map (λ (row : SyncRow). record row { slug = text "backup-0f0f0f0f" }) rows)
without_slugs (err e) = err e

test_defaults :
    without_slugs
      (declared_rows (λ e zone from. none) same same same same 1000 none [] (declared_job ∷ []))
    ≡ ok (job 3601000 ∷ [])
unfolding declared_rows compute_next_due_at
test_defaults = refl

test_declared_twice :
    declared_rows
      (λ e zone from. none)
      same
      same
      same
      same
      1000
      none
      []
      (declared_job ∷ declared_job ∷ [])
    ≡ err (duplicate_key (text "backup#run"))
unfolding declared_rows compute_next_due_at
test_declared_twice = refl

abbrev backup_slug : Text
backup_slug = sync_slug same same same (text "backup#run") (text "Backup") (text "backup#run") none

abbrev payload : SyncRequest
payload = record {
  environment = none;
  prune = true;
  declared = declared_job ∷ record declared_job { key = text "report#run" } ∷ [];
}

abbrev after_payload : List Check × ℕ
after_payload =
    upsert key_of 1000 7 none (record (job 3601000) { slug = backup_slug } ∷ [])
      (some (text "backup#run" ∷ text "report#run" ∷ [])) ([], 1)

sync_within_quota-ceiling_example : length after_payload.0 ≤ 0 + 1
unfolding sync_within_quota declared_rows compute_next_due_at apply_check_quota find_existing_keys
sync_within_quota-ceiling_example =
    sync_within_quota-ceiling (λ e zone from. none) same same same same key_of 1000 7 1 payload
      ([], 1) (text "report#run" ∷ []) after_payload refl
