-- ===== src/Queue/Drain.antt =====
-- The delivery pass of notifications/notification-queue.service.ts: claim, send, and record what
-- became of each alert. `send` stands for the senders and the vault: the error of a failed send.
use silence_watch.OrderedMap.{get, set}
use silence_watch.Prelude.{
  Bool, List, Option, Text, [], decimal, false, filter, if◌then◌else◌, leb, length, ltb, map, min,
  nat_eq, none, not, some, sort_by, take, text, text_keys, true, ℕ, ◌&&◌, ◌*◌, ◌++◌, ◌+◌, ◌-◌, ◌==◌,
  ◌^◌, ◌∷◌,
}
use silence_watch.Tables.{Db, Delivery, DeliveryStatus, Incident, failed, mem, pending, sent}
use silence_watch.Queue.{Locked}

pub record Config : Type 0 where
  pub batch_size : ℕ
  pub max_attempts : ℕ
  pub max_per_channel_per_hour : ℕ

abbrev pub lease_ms : ℕ
lease_ms = 300000

abbrev pub hour_ms : ℕ
hour_ms = 3600000

abbrev pub is_pending : DeliveryStatus → Bool
is_pending pending = true
is_pending _ = false

abbrev pub claimable : ℕ → Delivery → Bool
claimable now d = is_pending d.status && leb d.next_attempt_at now

unfoldable pub claimed_ids : ℕ → ℕ → Locked → List Delivery → List ℕ
claimed_ids limit now locked ds =
    map (λ (d : Delivery). d.id)
      (take limit (
        filter (λ (d : Delivery). not (locked d.id))
          (sort_by (λ (d : Delivery). d.next_attempt_at) (filter (claimable now) ds))))

-- UPDATE … WHERE id = ANY(ids).
abbrev pub update_ids : List ℕ → (Delivery → Delivery) → List Delivery → List Delivery
update_ids ids f = map λ d. if mem d.id ids then f d else d

abbrev pub claim_row : ℕ → Delivery → Delivery
claim_row now d = record d { attempts = d.attempts + 1; next_attempt_at = now + lease_ms }

-- CLAIM_SQL.
unfoldable pub claim : ℕ → ℕ → Locked → List Delivery → List Delivery × List ℕ
claim limit now locked ds =
    let ids = claimed_ids limit now locked ds in (update_ids ids (claim_row now) ds, ids)

-- 30s, 1m, 2m, … and an hour at most.
unfoldable pub backoff_seconds : ℕ → ℕ
backoff_seconds attempts = min 3600 (30 * 2 ^ (attempts - 1))

-- RETRY_SQL, on its row.
unfoldable pub retry_row : ℕ → ℕ → Text → Delivery → Delivery
unfolding backoff_seconds
retry_row max_attempts now message d = record d {
  status = if leb max_attempts d.attempts then failed else pending;
  last_error = some (take 500 message);
  next_attempt_at = now + backoff_seconds d.attempts * 1000;
}

-- REFUSE_SQL, on its row.
unfoldable pub refuse_row : Text → Delivery → Delivery
refuse_row message d = record d { status = failed; last_error = some (take 500 message) }

-- MARK_SENT_SQL, on its rows.
unfoldable pub sent_row : ℕ → Delivery → Delivery
sent_row now d = record d { status = sent; sent_at = some now; last_error = none }

-- SENT_LAST_HOUR_SQL.
recent : ℕ → DeliveryStatus → Option ℕ → Bool
recent now sent (some at) = ltb now (at + hour_ms)
recent now _ _ = false

unfoldable pub sent_last_hour : ℕ → ℕ → List Delivery → ℕ
unfolding recent
sent_last_hour now channel ds =
    length
      (filter (λ (d : Delivery). (d.channel_id == channel) && recent now d.status d.sent_at) ds)

-- `sentLastHour`: a map from the channels of the batch to what they were sent in the last hour. It
-- stays empty when there is no ceiling.
unfoldable pub count_channels : ℕ → List Delivery → List Delivery → List (ℕ × ℕ)
count_channels now ds [] = []
count_channels now ds (r ∷ rows) =
    set r.channel_id (sent_last_hour now r.channel_id ds) (count_channels now ds rows)

unfoldable pub initial_counts : Config → ℕ → List Delivery → List Delivery → List (ℕ × ℕ)
unfolding count_channels
initial_counts cfg now ds rows =
    if cfg.max_per_channel_per_hour == 0 then [] else count_channels now ds rows

abbrev pub or_zero : Option ℕ → ℕ
or_zero none = 0
or_zero (some n) = n

-- What a pass does not decide: the instants of its statements, the rows that others hold, and what
-- the senders answer.
pub record Pass : Type 0 where
  pub claim_at : ℕ
  pub locked : Locked
  pub count_at : ℕ
  pub settled_at : ℕ → ℕ
  pub mark_at : ℕ
  pub send : Delivery → Option Text

-- The variables of the loop, with the table that it updates.
pub record Loop : Type 0 where
  pub table : List Delivery
  pub counts : List (ℕ × ℕ)
  pub delivered : List ℕ
  pub sent_count : ℕ
  pub failed_count : ℕ

unfoldable pub refusal : ℕ → Text
refusal ceiling =
    text "Not sent: this channel reached its limit of "
    ++ (decimal ceiling ++ text " alerts per hour")

unfoldable pub at_ceiling : Config → Loop → Delivery → Bool
at_ceiling cfg l row =
    ltb 0 cfg.max_per_channel_per_hour
    && leb cfg.max_per_channel_per_hour (or_zero (get row.channel_id l.counts))

unfoldable pub refuse : Config → Loop → Delivery → Loop
unfolding refusal
refuse cfg l row = record l {
  table = update_ids (row.id ∷ []) (refuse_row (refusal cfg.max_per_channel_per_hour)) l.table;
  failed_count = l.failed_count + 1;
}

unfoldable pub settle : Config → Pass → Loop → Delivery → Option Text → Loop
settle cfg pass l row none = record l {
  counts = set row.channel_id (or_zero (get row.channel_id l.counts) + 1) l.counts;
  delivered = l.delivered ++ row.id ∷ [];
  sent_count = l.sent_count + 1;
}
settle cfg pass l row (some message) = record l {
  table =
      update_ids (row.id ∷ []) (retry_row cfg.max_attempts (pass.settled_at row.id) message)
        l.table;
  failed_count = l.failed_count + 1;
}

unfoldable pub drain_row : Config → Pass → Loop → Delivery → Loop
unfolding refuse settle at_ceiling
drain_row cfg pass l row =
    if at_ceiling cfg l row then refuse cfg l row else settle cfg pass l row (pass.send row)

unfoldable pub drain_rows : Config → Pass → Loop → List Delivery → Loop
drain_rows cfg pass l [] = l
drain_rows cfg pass l (row ∷ rows) = drain_rows cfg pass (drain_row cfg pass l row) rows

-- COUNT_SENT_SQL: an incident's counter grows by its rows among the marked ones.
add_sent : List Delivery → Incident → Incident
add_sent marked i = record i {
  notifications_sent =
      i.notifications_sent + length (filter (λ (d : Delivery). d.incident_id == i.id) marked);
}

count_sent : List Delivery → List Incident → List Incident
unfolding add_sent
count_sent marked incidents = map (add_sent marked) incidents

-- CONTEXT_SQL: the claimed rows, each with what its foreign keys lead to.
unfoldable pub contexts : List ℕ → List Delivery → List Delivery
contexts ids ds = filter (λ (d : Delivery). mem d.id ids) ds

unfoldable pub mark : Pass → Db → Loop → Db
unfolding count_sent
mark pass db l = record db {
  deliveries = update_ids l.delivered (sent_row pass.mark_at) l.table;
  incidents = count_sent (contexts l.delivered l.table) db.incidents;
}

pub record Counters : Type 0 where
  pub sent_total : ℕ
  pub failed_total : ℕ

unfoldable pub start_loop : Config → Pass → List Delivery → List ℕ → Loop
start_loop cfg pass table ids = record {
  table = table;
  counts = initial_counts cfg pass.count_at table (contexts ids table);
  delivered = [];
  sent_count = 0;
  failed_count = 0;
}

-- With nothing claimed or nothing delivered, the statements that the source skips change no row.
unfoldable pub drain : Config → Pass → Db × Counters → Db × Counters
unfolding mark
drain cfg pass (db, n) =
    let (table, ids) = claim cfg.batch_size pass.claim_at pass.locked db.deliveries in
    let l = drain_rows cfg pass (start_loop cfg pass table ids) (contexts ids table) in
    (
      mark pass db l,
      record {
        sent_total = n.sent_total + l.sent_count;
        failed_total = n.failed_total + l.failed_count;
      },
    )
