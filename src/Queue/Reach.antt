-- ===== src/Queue/Reach.antt =====
-- Whom an incident's alerts reach: every enabled channel for an outage, and for a recovery only
-- those of an outage that was announced.
use silence_watch.Prelude.{
  Bool-cases, In, In-append_left, In-append_right, In-filter, In-map, In-of_filter, List, [],
  any-append_one, arith, filter, inl, inr, nat_eq, refl, subst, sym, text_keys, true, ℕ, ◌&&◌, ◌==◌,
  ◌∷◌, ◌≡◌, ◌⊎◌,
}
use silence_watch.Tables.{AlertKind, Channel, Check, Db, alert_down, alert_up}
use silence_watch.Queue.{
  IncidentRef, Target, announced, channels_of, check_targets, concat_map, enqueue, insert_all,
  insert_delivery, new_delivery, ref_targets, same_alert, targets, wanted,
}
use silence_watch.Queue.Enqueueing.{IsQueued, insert_all-adds}

In-concat_map :
    {A B : Type 0} (f : A → List B) (a : A) (b : B) (xs : List A)
    → In a xs
    → In b (f a)
    → In b (concat_map f xs)
In-concat_map f a b [] m n = absurd m
In-concat_map f a b (x ∷ xs) (inl e) n =
    In-append_left b (f x) (concat_map f xs) (subst (λ t. In b (f t)) (sym e) n)
In-concat_map f a b (x ∷ xs) (inr m) n =
    In-append_right b (f x) (concat_map f xs) (In-concat_map f a b xs m n)

In-ref_targets :
    (db : Db) (r : IncidentRef) (c : Check) (ch : Channel)
    → In c db.checks
    → c.id ≡ r.check_id
    → In ch db.channels
    → ch.project_id ≡ c.project_id
    → ch.enabled ≡ true
    → In (r.incident_id, ch.id) (ref_targets db r)
unfolding ref_targets check_targets channels_of
In-ref_targets db r c ch m same n project enabled =
    let chosen = λ (x : Channel). (x.project_id == c.project_id) && x.enabled in
    In-concat_map (check_targets db.channels r.incident_id) c (r.incident_id, ch.id)
      (filter (λ (x : Check). x.id == r.check_id) db.checks)
      (In-filter (λ (x : Check). x.id == r.check_id) c db.checks m (ground arith))
      (In-map (λ (x : Channel). (r.incident_id, x.id)) ch (filter chosen db.channels)
        (In-filter chosen ch db.channels n (ground arith)))

-- An outage is queued on every enabled channel of the project of its check.
pub enqueue-reaches :
    (now : ℕ) (refs : List IncidentRef) (db : Db) (r : IncidentRef) (c : Check) (ch : Channel)
    → In r refs
    → In c db.checks
    → c.id ≡ r.check_id
    → In ch db.channels
    → ch.project_id ≡ c.project_id
    → ch.enabled ≡ true
    → IsQueued alert_down (enqueue alert_down now refs db).0 (r.incident_id, ch.id)
unfolding enqueue targets wanted
enqueue-reaches now [] db r c ch k m same n project enabled = absurd k
enqueue-reaches now (x ∷ refs) db r c ch k m same n project enabled =
    let all_targets = concat_map (ref_targets db) (x ∷ refs) in
    let t : Target = (r.incident_id, ch.id) in
    insert_all-adds alert_down now (targets db alert_down (x ∷ refs)) db 0 t (
      In-filter (wanted db alert_down) t all_targets
        (In-concat_map (ref_targets db) r t (x ∷ refs) k
          (In-ref_targets db r c ch m same n project enabled))
        refl)

new_delivery-is :
    (kind k : AlertKind) (id now : ℕ) (t u : Target)
    → same_alert kind t (new_delivery k id now u) ≡ true
    → (kind ≡ k) × (t.0 ≡ u.0)
unfolding same_alert new_delivery
new_delivery-is kind k id now t u h = (ground arith, ground arith)

insert_delivery-origin :
    (kind k : AlertKind) (now : ℕ) (t u : Target) (db : Db) (n : ℕ)
    → IsQueued kind (insert_delivery k now u (db, n)).0 t
    → IsQueued kind db t ⊎ ((kind ≡ k) × (t.0 ≡ u.0))
unfolding insert_delivery
insert_delivery-origin kind k now t u db n h =
    let row = new_delivery k db.next_id now u in
    let split = any-append_one (same_alert kind t) db.deliveries row in
    elim (Bool-cases (same_alert kind t row)) [
      | inl new_one ↦ inr (new_delivery-is kind k db.next_id now t u new_one)
      | inr other ↦ inl (ground arith)
    ]

insert_all-origin :
    (kind k : AlertKind) (now : ℕ) (t : Target) (ts : List Target) (db : Db) (n : ℕ)
    → IsQueued kind (insert_all k now ts (db, n)).0 t
    → IsQueued kind db t ⊎ ((u : Target) × In u ts × (kind ≡ k) × (t.0 ≡ u.0))
unfolding insert_all
insert_all-origin kind k now t [] db n h = inl h
insert_all-origin kind k now t (u ∷ us) db n h =
    let (db', n') = insert_delivery k now u (db, n) in
    elim (insert_all-origin kind k now t us db' n' h) [
      | inr (v, m, e, f) ↦ inr (v, inr m, e, f)
      | inl before ↦ elim (insert_delivery-origin kind k now t u db n before) [
        | inl old ↦ inl old
        | inr (e, f) ↦ inr (u, inl refl, e, f)
      ]
    ]

-- A recovery that is queued was queued before, or some channel has been told of its outage: nobody
-- hears of the end of an outage that was never announced.
pub enqueue-recovery :
    (now : ℕ) (refs : List IncidentRef) (db : Db) (t : Target)
    → IsQueued alert_up (enqueue alert_up now refs db).0 t
    → IsQueued alert_up db t ⊎ (announced db.deliveries t.0 ≡ true)
unfolding enqueue targets wanted
enqueue-recovery now [] db t h = inl h
enqueue-recovery now (r ∷ refs) db t h =
    let all_targets = concat_map (ref_targets db) (r ∷ refs) in
    elim (insert_all-origin alert_up alert_up now t (targets db alert_up (r ∷ refs)) db 0 h) [
      | inl before ↦ inl before
      | inr (u, m, e, f) ↦ inr (rw f (In-of_filter (wanted db alert_up) u all_targets m).1)
    ]
