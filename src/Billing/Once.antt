-- ===== src/Billing/Once.antt =====
-- An event takes effect once, and an old one takes none.
use silence_watch.Prelude.{
  Bool-cases, Option, Text, [], any, any-append_one, ap, arith, false, if◌then◌else◌, inl, inr,
  nat_eq, none, refl, some, text_eq, text_eq_iff, text_keys, true, ℕ, ◌*◌, ◌++◌, ◌∙◌, ◌∷◌, ◌≡◌, ◌⊎◌,
}
use silence_watch.Billing.{
  Account, ApplyOutcome, Store, StripeEvent, StripePlans, Subscription, SubscriptionChange, apply,
  apply_row, apply_user, duplicate, find_customer, find_user, is_after, is_failed, is_other,
  is_recorded, other_subscription, record_event, stale, write_decision,
}

apply_row-events :
    (change : SubscriptionChange) (plans : StripePlans) (default : Option Text) (at : ℕ) (s : Store)
    (row : Option Subscription)
    → (apply_row change plans default at s row).0.events ≡ s.events
unfolding apply_row write_decision
apply_row-events change plans default at s none = refl
apply_row-events change plans default at s (some row) = written (find_user row.user_id s.users)
  where
    written :
        (u : Option Account)
        → (if is_after at row.last_event_at
            then (s, stale)
            else if is_other row.stripe_subscription_id change.subscription_id row.status
            then (s, other_subscription)
            else apply_user change plans default at row s u).0.events
          ≡ s.events
    written none = ground arith
    written (some u) = ground arith

apply-seen :
    (event : StripeEvent) (change : SubscriptionChange) (plans : StripePlans)
    (default : Option Text) (s : Store)
    → is_recorded event.id s ≡ true
    → apply event change plans default s ≡ (s, duplicate)
unfolding apply
apply-seen event change plans default s seen = rw seen refl

-- Recording an event makes it one that is recorded.
record_event-recorded :
    (event : StripeEvent) (s t : Store)
    → t.events ≡ s.events ++ (event.id, event.type) ∷ []
    → is_recorded event.id t ≡ true
unfolding is_recorded
record_event-recorded event s t e =
    ap (any (λ (x : Text × Text). text_eq x.0 event.id)) e
    ∙ any-append_one (λ (x : Text × Text). text_eq x.0 event.id) s.events (event.id, event.type)
    ∙ ground (arith, (text_eq_iff event.id event.id).1 refl)

-- What becomes of an event that is not recorded yet.
apply-fresh :
    (event : StripeEvent) (change : SubscriptionChange) (plans : StripePlans)
    (default : Option Text) (s : Store)
    → is_recorded event.id s ≡ false
    → is_failed (apply event change plans default s).1 ≡ false
    → (apply event change plans default s).0.events ≡ s.events ++ (event.id, event.type) ∷ []
unfolding apply
apply-fresh event change plans default s fresh h =
    let t = record_event event s in
    let row = find_customer change.customer_id s.subscriptions in
    let kept = apply_row-events change plans default (event.created * 1000) t row in
    rw fresh (ground (arith, rw fresh at h, kept))

apply-recorded :
    (event : StripeEvent) (change : SubscriptionChange) (plans : StripePlans)
    (default : Option Text) (s : Store)
    → is_failed (apply event change plans default s).1 ≡ false
    → is_recorded event.id (apply event change plans default s).0 ≡ true
apply-recorded event change plans default s h = elim (Bool-cases (is_recorded event.id s)) [
  | inl seen ↦
      ap (λ (x : Store × ApplyOutcome). is_recorded event.id x.0)
        (apply-seen event change plans default s seen)
      ∙ seen
  | inr fresh ↦
      record_event-recorded event s (apply event change plans default s).0
        (apply-fresh event change plans default s fresh h)
]

-- An event that has been applied is recorded, whatever its outcome was, and applying it again
-- changes nothing and says so.
pub apply-duplicate :
    (event : StripeEvent) (change : SubscriptionChange) (plans : StripePlans)
    (default : Option Text) (s : Store)
    → is_failed (apply event change plans default s).1 ≡ false
    → let s' = (apply event change plans default s).0 in
      apply event change plans default s' ≡ (s', duplicate)
apply-duplicate event change plans default s h =
    apply-seen event change plans default (apply event change plans default s).0
      (apply-recorded event change plans default s h)

-- An event that is older than the last one applied to its customer leaves the subscriptions and the
-- accounts as they are; so does one about another subscription while that of the customer is live.
pub apply-untouched :
    (event : StripeEvent) (change : SubscriptionChange) (plans : StripePlans)
    (default : Option Text) (s : Store) (row : Subscription)
    → find_customer change.customer_id s.subscriptions ≡ some row
    → (is_after (event.created * 1000) row.last_event_at ≡ true)
      ⊎ (is_other row.stripe_subscription_id change.subscription_id row.status ≡ true)
    → let s' = (apply event change plans default s).0 in
      (s'.subscriptions ≡ s.subscriptions) × (s'.users ≡ s.users)
unfolding apply apply_row
apply-untouched event change plans default s row found why = rw found (ground arith)
