-- ===== src/Queue/Enqueueing.antt =====
-- Queueing an incident's alerts: once for each channel, and never twice.
use silence_watch.Prelude.{
  In, List, [], any, any-append_one, any-length, arith, false, filter, inl, inr, length,
  length-append_one, nat_eq, refl, subst, text_keys, true, ℕ, ◌∙◌, ◌∷◌, ◌≡◌, ◌≤◌,
}
use silence_watch.Tables.{AlertKind, Db, Delivery}
use silence_watch.Queue.{
  IncidentRef, Target, announced, announces, concat_map, enqueue, insert_all, insert_delivery,
  new_delivery, ref_targets, same_alert, targets, wanted,
}

-- The alerts of one kind queued for one incident on one channel.
abbrev pub alerts : AlertKind → Target → Db → List Delivery
alerts kind t db = filter (same_alert kind t) db.deliveries

-- A new row that counts as the alert (kind, t) was checked for exactly that alert.
pub same_alert-new :
    (kind k : AlertKind) (id now : ℕ) (t u : Target)
    → same_alert kind t (new_delivery k id now u) ≡ true
    → (ds : List Delivery) → any (same_alert kind t) ds ≡ any (same_alert k u) ds
unfolding same_alert new_delivery
same_alert-new kind k id now t u h [] = refl
same_alert-new kind k id now t u h (d ∷ ds) = ground (arith, same_alert-new kind k id now t u h ds)

insert_delivery-single :
    (kind k : AlertKind) (now : ℕ) (t u : Target) (db : Db) (n : ℕ)
    → length (alerts kind t db) ≤ 1
    → length (alerts kind t (insert_delivery k now u (db, n)).0) ≤ 1
unfolding insert_delivery
insert_delivery-single kind k now t u db n h =
    let row = new_delivery k db.next_id now u in
    ground (
      arith,
      length-append_one (same_alert kind t) db.deliveries row,
      any-length (same_alert kind t) db.deliveries,
      λ (e : same_alert kind t row ≡ true).
          same_alert-new kind k db.next_id now t u e db.deliveries,
    )

insert_all-single :
    (kind k : AlertKind) (now : ℕ) (t : Target) (ts : List Target) (db : Db) (n : ℕ)
    → length (alerts kind t db) ≤ 1
    → length (alerts kind t (insert_all k now ts (db, n)).0) ≤ 1
unfolding insert_all
insert_all-single kind k now t [] db n h = h
insert_all-single kind k now t (u ∷ us) db n h =
    let (db', n') = insert_delivery k now u (db, n) in
    insert_all-single kind k now t us db' n' (insert_delivery-single kind k now t u db n h)

-- If an alert of one kind for one incident on one channel is queued at most once, it still is after
-- any call of `enqueue`, of whatever kind and for whatever incidents.
pub enqueue-single :
    (kind k : AlertKind) (now : ℕ) (t : Target) (refs : List IncidentRef) (db : Db)
    → length (alerts kind t db) ≤ 1
    → length (alerts kind t (enqueue k now refs db).0) ≤ 1
unfolding enqueue
enqueue-single kind k now t [] db h = h
enqueue-single kind k now t (r ∷ refs) db h =
    insert_all-single kind k now t (targets db k (r ∷ refs)) db 0 h

abbrev pub IsQueued : AlertKind → Db → Target → Type 0
IsQueued kind db t = any (same_alert kind t) db.deliveries ≡ true

pub same_alert_self :
    (k : AlertKind) (id now : ℕ) (t : Target) → same_alert k t (new_delivery k id now t) ≡ true
unfolding same_alert new_delivery
same_alert_self k id now t = ground arith

insert_delivery-keeps :
    (kind k : AlertKind) (now : ℕ) (t u : Target) (db : Db) (n : ℕ)
    → IsQueued kind db t
    → IsQueued kind (insert_delivery k now u (db, n)).0 t
unfolding insert_delivery
insert_delivery-keeps kind k now t u db n h =
    ground
      (arith, any-append_one (same_alert kind t) db.deliveries (new_delivery k db.next_id now u))

insert_delivery-adds :
    (k : AlertKind) (now : ℕ) (u : Target) (db : Db) (n : ℕ)
    → IsQueued k (insert_delivery k now u (db, n)).0 u
unfolding insert_delivery
insert_delivery-adds k now u db n = ground (
  arith,
  any-append_one (same_alert k u) db.deliveries (new_delivery k db.next_id now u),
  same_alert_self k db.next_id now u,
)

insert_all-keeps :
    (kind k : AlertKind) (now : ℕ) (t : Target) (ts : List Target) (db : Db) (n : ℕ)
    → IsQueued kind db t
    → IsQueued kind (insert_all k now ts (db, n)).0 t
unfolding insert_all
insert_all-keeps kind k now t [] db n h = h
insert_all-keeps kind k now t (u ∷ us) db n h =
    let (db', n') = insert_delivery k now u (db, n) in
    insert_all-keeps kind k now t us db' n' (insert_delivery-keeps kind k now t u db n h)

pub insert_all-adds :
    (k : AlertKind) (now : ℕ) (ts : List Target) (db : Db) (n : ℕ) (t : Target)
    → In t ts
    → IsQueued k (insert_all k now ts (db, n)).0 t
unfolding insert_all
insert_all-adds k now [] db n t m = absurd m
insert_all-adds k now (u ∷ us) db n t m =
    let (db', n') = insert_delivery k now u (db, n) in
    elim m as (λ _. IsQueued k (insert_all k now us (db', n')).0 t) [
      | inl e ↦
          insert_all-keeps k k now t us db' n'
            (subst (IsQueued k db') e (insert_delivery-adds k now u db n))
      | inr later ↦ insert_all-adds k now us db' n' t later
    ]

-- Rows that are queued already are inserted no second time.
pub insert_all-nothing :
    (k : AlertKind) (now : ℕ) (ts : List Target) (db : Db) (n : ℕ)
    → ((t : Target) → In t ts → IsQueued k db t)
    → insert_all k now ts (db, n) ≡ (db, n)
unfolding insert_all insert_delivery
insert_all-nothing k now [] db n h = refl
insert_all-nothing k now (u ∷ us) db n h =
    rw (h u (inl refl)) (insert_all-nothing k now us db n (λ t m. h t (inr m)))

-- What queueing leaves alone: every table but that of the deliveries, and which outages have been
-- announced.
pub record Frame (db db' : Db) : Type 0 where
  pub checks : db'.checks ≡ db.checks
  pub pings : db'.pings ≡ db.pings
  pub incidents : db'.incidents ≡ db.incidents
  pub channels : db'.channels ≡ db.channels
  pub announced : (i : ℕ) → announced db'.deliveries i ≡ announced db.deliveries i

Frame-refl : (db : Db) → Frame db db
Frame-refl db = record {
  checks = refl;
  pings = refl;
  incidents = refl;
  channels = refl;
  announced = λ i. refl;
}

Frame-trans : (a b c : Db) → Frame a b → Frame b c → Frame a c
Frame-trans a b c f g = record {
  checks = g.checks ∙ f.checks;
  pings = g.pings ∙ f.pings;
  incidents = g.incidents ∙ f.incidents;
  channels = g.channels ∙ f.channels;
  announced = λ i. g.announced i ∙ f.announced i;
}

new_delivery-announces :
    (k : AlertKind) (i id now : ℕ) (u : Target) → announces i (new_delivery k id now u) ≡ false
unfolding announces new_delivery
new_delivery-announces k i id now u = ground arith

insert_delivery-Frame :
    (k : AlertKind) (now : ℕ) (u : Target) (db : Db) (n : ℕ)
    → Frame db (insert_delivery k now u (db, n)).0
unfolding insert_delivery
insert_delivery-Frame k now u db n = record {
  checks = ground arith;
  pings = ground arith;
  incidents = ground arith;
  channels = ground arith;
  announced = λ i. ground (
    arith,
    any-append_one (announces i) db.deliveries (new_delivery k db.next_id now u),
    new_delivery-announces k i db.next_id now u,
  );
}

insert_all-Frame :
    (k : AlertKind) (now : ℕ) (ts : List Target) (db : Db) (n : ℕ)
    → Frame db (insert_all k now ts (db, n)).0
unfolding insert_all
insert_all-Frame k now [] db n = Frame-refl db
insert_all-Frame k now (u ∷ us) db n =
    let (db', n') = insert_delivery k now u (db, n) in
    Frame-trans db db' (insert_all k now us (db', n')).0 (insert_delivery-Frame k now u db n)
      (insert_all-Frame k now us db' n')

pub enqueue-Frame :
    (k : AlertKind) (now : ℕ) (refs : List IncidentRef) (db : Db)
    → Frame db (enqueue k now refs db).0
unfolding enqueue
enqueue-Frame k now [] db = Frame-refl db
enqueue-Frame k now (r ∷ refs) db = insert_all-Frame k now (targets db k (r ∷ refs)) db 0

concat_targets-Frame :
    (db db' : Db) (refs : List IncidentRef)
    → Frame db db'
    → concat_map (ref_targets db') refs ≡ concat_map (ref_targets db) refs
unfolding ref_targets
concat_targets-Frame db db' [] f = refl
concat_targets-Frame db db' (r ∷ refs) f =
    rw (f.checks, f.channels, concat_targets-Frame db db' refs f)

filter-wanted :
    (db db' : Db) (k : AlertKind) (ts : List Target)
    → Frame db db'
    → filter (wanted db' k) ts ≡ filter (wanted db k) ts
unfolding wanted
filter-wanted db db' k [] f = refl
filter-wanted db db' k (t ∷ ts) f = ground (arith, f.announced t.0, filter-wanted db db' k ts f)

targets-Frame :
    (db db' : Db) (k : AlertKind) (refs : List IncidentRef)
    → Frame db db'
    → targets db' k refs ≡ targets db k refs
unfolding targets
targets-Frame db db' k refs f =
    rw (concat_targets-Frame db db' refs f)
      (filter-wanted db db' k (concat_map (ref_targets db) refs) f)

-- A second call for the same incidents queues nothing and changes nothing, whenever it is made.
pub enqueue-idempotent :
    (k : AlertKind) (now later : ℕ) (refs : List IncidentRef) (db : Db)
    → let db' = (enqueue k now refs db).0 in enqueue k later refs db' ≡ (db', 0)
unfolding enqueue
enqueue-idempotent k now later [] db = refl
enqueue-idempotent k now later (r ∷ refs) db =
    let ts = targets db k (r ∷ refs) in
    let db' = (insert_all k now ts (db, 0)).0 in
    rw (targets-Frame db db' k (r ∷ refs) (insert_all-Frame k now ts db 0))
      (insert_all-nothing k later ts db' 0 (insert_all-adds k now ts db 0))
