-- ===== src/Queue/Examples.antt =====
-- One outage on one channel, from the queue to the sender.
use silence_watch.Prelude.{
  All, In, List, [], arith, false, inl, inr, insert_by, length, nat_eq, none, refl, some, sort_by,
  sym, text, text_keys, true, ◌∙◌, ◌∷◌, ◌≡◌, ◌≤◌, ◌⊎◌,
}
use silence_watch.Prelude.Int.{pos}
use silence_watch.Schedule.{interval}
use silence_watch.Tables.{
  Channel, Check, Db, Delivery, alert_down, alert_up, api, down, pending, sent,
}
use silence_watch.Queue.{
  IncidentRef, Locked, announced, announces, channels_of, check_targets, enqueue, insert_all,
  insert_delivery, new_delivery, ref_targets, same_alert, targets, wanted,
}
use silence_watch.Queue.Drain.{Config, Pass, claim, claimed_ids, contexts, drain}
use silence_watch.Queue.Enqueueing.{IsQueued, alerts, enqueue-single}
use silence_watch.Queue.Reach.{enqueue-recovery}
use silence_watch.Queue.Delivering.{claim-disjoint}
use silence_watch.Queue.Attempts.{UniqueIds, Within, drain-attempts}
use silence_watch.Queue.Ceiling.{}

abbrev backup : Check
backup = record {
  id = 1;
  project_id = 7;
  name = text "backup";
  slug = text "backup";
  key = none;
  ping_key = text "0b1f7a52-93c4-4d1e-8f60-5a2b3c4d5e6f";
  ping_key_rotated_at = none;
  schedule = record {
    schedule_type = interval;
    period_seconds = some (pos 3600);
    cron_expression = none;
    timezone = [];
  };
  grace_seconds = 300;
  state = down;
  paused_reason = none;
  last_ping_at = none;
  last_started_at = none;
  last_duration_ms = none;
  next_due_at = some 5000;
  source = api;
  environment = none;
  tags = [];
  description = none;
  orphaned_at = none;
  created_at = 0;
  updated_at = 0;
}

abbrev phone : Channel
phone = record { id = 3; project_id = 7; enabled = true }

abbrev queued : Delivery
queued = record {
  id = 1;
  incident_id = 2;
  channel_id = 3;
  kind = alert_down;
  status = pending;
  attempts = 0;
  last_error = none;
  next_attempt_at = 1000;
  sent_at = none;
  created_at = 1000;
}

abbrev db_of : List Delivery → Db
db_of ds = record {
  checks = backup ∷ [];
  pings = [];
  incidents = [];
  channels = phone ∷ [];
  deliveries = ds;
  next_id = 5;
}

abbrev outage : IncidentRef
outage = record { incident_id = 2; check_id = 1 }

abbrev nobody : Locked
nobody i = false

abbrev config : Config
config = record { batch_size = 10; max_attempts = 5; max_per_channel_per_hour = 20 }

-- A pass in which every send fails.
abbrev failing : Pass
failing = record {
  claim_at = 2000;
  locked = nobody;
  count_at = 2000;
  settled_at = λ i. 2500;
  mark_at = 3000;
  send = λ d. some (text "timeout");
}

none_yet : length (alerts alert_down (2, 3) (db_of [])) ≤ 1
none_yet = omega arith

enqueue-single_example :
    length (alerts alert_down (2, 3) (enqueue alert_down 1000 (outage ∷ []) (db_of [])).0) ≤ 1
enqueue-single_example =
    enqueue-single alert_down alert_down 1000 (2, 3) (outage ∷ []) (db_of []) none_yet

recovery_queued :
    IsQueued alert_up
      (enqueue alert_up 9000
        (outage ∷ [])
        (db_of (record queued { status = sent; sent_at = some 3000 } ∷ []))).0
      (2, 3)
unfolding enqueue insert_all insert_delivery targets ref_targets wanted check_targets channels_of
    same_alert new_delivery announces
recovery_queued = refl

enqueue-recovery_example :
    let db = db_of (record queued { status = sent; sent_at = some 3000 } ∷ []) in
    IsQueued alert_up db (2, 3) ⊎ (announced db.deliveries 2 ≡ true)
enqueue-recovery_example =
    enqueue-recovery 9000 (outage ∷ [])
      (db_of (record queued { status = sent; sent_at = some 3000 } ∷ [])) (2, 3) recovery_queued

first_claims : In 1 (claim 10 2000 nobody (queued ∷ [])).1
unfolding claim claimed_ids sort_by insert_by
first_claims = inl refl

claim-disjoint_example : ¬ In 1 (claim 10 9000 nobody (claim 10 2000 nobody (queued ∷ [])).0).1
claim-disjoint_example =
    claim-disjoint 10 10 2000 9000 nobody nobody (queued ∷ []) 1 (omega arith) first_claims

only_one : UniqueIds (queued ∷ [])
only_one a b (inl e) (inl f) same = sym e ∙ f
only_one a b (inl e) (inr n) same = absurd n
only_one a b (inr m) n same = absurd m

drain-attempts_example :
    All
      (Within 5)
      (drain config failing
        (db_of (queued ∷ []), record { sent_total = 0; failed_total = 0 })).0.deliveries
drain-attempts_example =
    drain-attempts config failing (db_of (queued ∷ [])) record { sent_total = 0; failed_total = 0 }
      only_one ((omega arith, λ p. omega arith), tt)

waiting : In queued (contexts (1 ∷ []) (queued ∷ []))
unfolding contexts
waiting = inl refl
