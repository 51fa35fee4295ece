-- ===== src/Queue.antt =====
-- notifications/notification-queue.service.ts: the alert queue that lives in the database. Each
-- statement is a function of the tables; `now` is the statement's `now()`, and `locked` says which
-- rows another transaction holds, for FOR UPDATE SKIP LOCKED.
pub mod Drain
pub mod Enqueueing
pub mod Reach
pub mod Delivering
pub mod Attempts
pub mod Ceiling
mod Examples
use silence_watch.Prelude.{
  Bool, List, [], any, false, filter, if◌then◌else◌, map, nat_eq, none, text_keys, true, ℕ, ◌&&◌,
  ◌++◌, ◌+◌, ◌==◌, ◌||◌, ◌∷◌,
}
use silence_watch.Tables.{
  AlertKind, Channel, Check, Db, Delivery, DeliveryStatus, alert_down, kind_eq, pending, sent,
}

pub record IncidentRef : Type 0 where
  pub incident_id : ℕ
  pub check_id : ℕ

abbrev pub Locked : Type 0
Locked = ℕ → Bool

-- A row of the join in ENQUEUE_SQL: an incident and an enabled channel of its check's project.
abbrev pub Target : Type 0
Target = ℕ × ℕ

abbrev pub concat_map : {A B : Type 0} → (A → List B) → List A → List B
concat_map f [] = []
concat_map f (x ∷ xs) = f x ++ concat_map f xs

unfoldable pub channels_of : List Channel → ℕ → List Channel
channels_of channels project =
    filter (λ (ch : Channel). (ch.project_id == project) && ch.enabled) channels

unfoldable pub check_targets : List Channel → ℕ → Check → List Target
unfolding channels_of
check_targets channels incident c =
    map (λ (ch : Channel). (incident, ch.id)) (channels_of channels c.project_id)

unfoldable pub ref_targets : Db → IncidentRef → List Target
unfolding check_targets
ref_targets db ref =
    concat_map (check_targets db.channels ref.incident_id)
      (filter (λ (c : Check). c.id == ref.check_id) db.checks)

is_sent : DeliveryStatus → Bool
is_sent sent = true
is_sent _ = false

unfoldable pub announces : ℕ → Delivery → Bool
unfolding is_sent
announces incident d = (d.incident_id == incident) && kind_eq d.kind alert_down && is_sent d.status

-- The outage was announced: some channel has been sent its `down`.
abbrev pub announced : List Delivery → ℕ → Bool
announced deliveries incident = any (announces incident) deliveries

unfoldable pub wanted : Db → AlertKind → Target → Bool
wanted db kind t = kind_eq kind alert_down || announced db.deliveries t.0

-- The unique index on (incident, channel, kind).
unfoldable pub same_alert : AlertKind → Target → Delivery → Bool
same_alert kind t d = (d.incident_id == t.0) && (d.channel_id == t.1) && kind_eq d.kind kind

unfoldable pub new_delivery : AlertKind → ℕ → ℕ → Target → Delivery
new_delivery kind id now t = record {
  id = id;
  incident_id = t.0;
  channel_id = t.1;
  kind = kind;
  status = pending;
  attempts = 0;
  last_error = none;
  next_attempt_at = now;
  sent_at = none;
  created_at = now;
}

-- INSERT … ON CONFLICT DO NOTHING, of one row; the count is that of the rows inserted.
unfoldable pub insert_delivery : AlertKind → ℕ → Target → Db × ℕ → Db × ℕ
unfolding new_delivery same_alert
insert_delivery kind now t (db, queued) =
    if any (same_alert kind t) db.deliveries then (db, queued) else (
      record db {
        deliveries = db.deliveries ++ new_delivery kind db.next_id now t ∷ [];
        next_id = db.next_id + 1;
      },
      queued + 1,
    )

unfoldable pub insert_all : AlertKind → ℕ → List Target → Db × ℕ → Db × ℕ
unfolding insert_delivery
insert_all kind now [] acc = acc
insert_all kind now (t ∷ ts) acc = insert_all kind now ts (insert_delivery kind now t acc)

-- The rows that ENQUEUE_SQL selects.
unfoldable pub targets : Db → AlertKind → List IncidentRef → List Target
unfolding ref_targets wanted
targets db kind refs = filter (wanted db kind) (concat_map (ref_targets db) refs)

-- `enqueue`: the number of alerts queued. The delivery pass that it starts is not awaited, so it
-- is a step of its own, `drain`.
unfoldable pub enqueue : AlertKind → ℕ → List IncidentRef → Db → Db × ℕ
unfolding targets insert_all
enqueue kind now [] db = (db, 0)
enqueue kind now (r ∷ refs) db = insert_all kind now (targets db kind (r ∷ refs)) (db, 0)
