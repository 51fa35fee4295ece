-- ===== src/Billing.antt =====
-- billing/stripe-events.ts and billing/billing.repository.ts: what a subscription event says, what
-- it means for the plan of an account, and how it is applied once.
pub mod Once
pub mod Plans
pub mod Signature
pub mod Signing
pub mod Carrying
mod Examples
use silence_watch.Prelude.{
  Bool, List, Option, Text, [], any, false, if◌then◌else◌, ltb, map, nat_eq, none, not, some, text,
  text_eq, text_keys, true, ℕ, ◌&&◌, ◌*◌, ◌++◌, ◌==◌, ◌∷◌,
}

-- A value that Stripe sent, as far as its reader tells values apart.
pub data Field : Type 0 where
  absent : Field
  word : Text → Field
  seconds : ℕ → Field
  truth : Bool → Field
  other : Field

-- An object that may be sent bare, by its id, or expanded, with an `id`.
pub data Reference : Type 0 where
  bare : Field → Reference
  expanded : Field → Reference

pub record Item : Type 0 where
  pub price : Reference
  pub current_period_end : Field

-- `event.data.object`; `items` is none unless `items.data` is an array.
pub record StripeSubscription : Type 0 where
  pub customer : Reference
  pub id : Field
  pub status : Field
  pub items : Option (List Item)
  pub current_period_end : Field
  pub cancel_at_period_end : Field

pub record StripeEvent : Type 0 where
  pub id : Text
  pub type : Text
  pub created : ℕ
  pub object : StripeSubscription

pub record SubscriptionChange : Type 0 where
  pub customer_id : Text
  pub subscription_id : Text
  pub status : Text
  pub price_id : Option Text
  pub current_period_end : Option ℕ
  pub cancel_at_period_end : Bool

abbrev pub text_in : Text → List Text → Bool
text_in s = any (text_eq s)

abbrev pub live_statuses : List Text
live_statuses = text "active" ∷ text "trialing" ∷ text "past_due" ∷ []

abbrev pub ended_statuses : List Text
ended_statuses = text "canceled" ∷ text "unpaid" ∷ text "incomplete_expired" ∷ text "paused" ∷ []

abbrev pub subscription_events : List Text
subscription_events =
    text "customer.subscription.created"
    ∷ text "customer.subscription.updated"
    ∷ text "customer.subscription.deleted"
    ∷ text "customer.subscription.paused"
    ∷ text "customer.subscription.resumed"
    ∷ []

abbrev pub as_string : Field → Option Text
as_string (word []) = none
as_string (word (c ∷ s)) = some (c ∷ s)
as_string _ = none

abbrev pub id_of : Reference → Option Text
id_of (bare v) = as_string v
id_of (expanded v) = as_string v

-- The default of `??`.
abbrev pub or_word : Option Text → Text → Text
or_word none default = default
or_word (some s) default = s

abbrev pub first_item : Option (List Item) → Option Item
first_item (some (item ∷ items)) = some item
first_item _ = none

abbrev pub price_of : Option Item → Option Text
price_of none = none
price_of (some item) = id_of item.price

-- `subscription.current_period_end ?? item?.current_period_end`.
abbrev pub period_end_field : Field → Option Item → Field
period_end_field absent none = absent
period_end_field absent (some item) = item.current_period_end
period_end_field v item = v

abbrev pub instant_of : Field → Option ℕ
instant_of (seconds n) = some (n * 1000)
instant_of _ = none

abbrev pub is_true : Field → Bool
is_true (truth true) = true
is_true _ = false

unfoldable pub status_of : StripeEvent → Text
status_of event =
    if text_eq event.type (text "customer.subscription.deleted")
    then text "canceled"
    else or_word (as_string event.object.status) (text "incomplete")

unfoldable pub change_of : StripeEvent → Text → Text → SubscriptionChange
unfolding status_of
change_of event customer_id subscription_id =
    let subscription = event.object in
    let item = first_item subscription.items in
    record {
      customer_id = customer_id;
      subscription_id = subscription_id;
      status = status_of event;
      price_id = price_of item;
      current_period_end = instant_of (period_end_field subscription.current_period_end item);
      cancel_at_period_end = is_true subscription.cancel_at_period_end;
    }

with_ids : StripeEvent → Option Text → Option Text → Option SubscriptionChange
unfolding change_of
with_ids event (some customer_id) (some subscription_id) =
    some (change_of event customer_id subscription_id)
with_ids event _ _ = none

unfoldable pub read_subscription_event : StripeEvent → Option SubscriptionChange
unfolding with_ids
read_subscription_event event =
    if text_in event.type subscription_events
    then with_ids event (id_of event.object.customer) (as_string event.object.id)
    else none

pub data KeepReason : Type 0 where
  unknown_price not_settled : KeepReason

pub data PlanDecision : Type 0 where
  grant : Text → PlanDecision
  end : PlanDecision
  keep : KeepReason → PlanDecision

-- The configured plans by name, each with its price.
abbrev pub StripePlans : Type 0
StripePlans = List (Text × Text)

abbrev pub is_price : Option Text → Text → Bool
is_price none price = false
is_price (some id) price = text_eq price id

unfoldable pub plan_of_price : StripePlans → Option Text → PlanDecision
plan_of_price [] price_id = keep unknown_price
plan_of_price ((name, price) ∷ plans) price_id =
    let rest = plan_of_price plans price_id in if is_price price_id price then grant name else rest

unfoldable pub decide_plan : SubscriptionChange → StripePlans → PlanDecision
decide_plan change plans =
    if text_in change.status ended_statuses
    then end
    else if text_in change.status live_statuses
    then plan_of_price plans change.price_id
    else keep not_settled

pub record Subscription : Type 0 where
  pub user_id : ℕ
  pub stripe_customer_id : Text
  pub stripe_subscription_id : Option Text
  pub plan : Option Text
  pub status : Text
  pub current_period_end : Option ℕ
  pub cancel_at_period_end : Bool
  pub last_event_at : Option ℕ

pub record Account : Type 0 where
  pub id : ℕ
  pub email : Text
  pub plan : Option Text

pub record Store : Type 0 where
  pub events : List (Text × Text)
  pub subscriptions : List Subscription
  pub users : List Account

pub record Applied : Type 0 where
  pub user_id : ℕ
  pub email : Text
  pub from : Option Text
  pub to : Option Text
  pub status : Text
  pub unknown_price : Bool

-- `failed` is a transaction that threw, and was rolled back.
pub data ApplyOutcome : Type 0 where
  duplicate unknown_customer stale other_subscription failed : ApplyOutcome
  applied : Applied → ApplyOutcome

abbrev pub find_customer : Text → List Subscription → Option Subscription
find_customer customer [] = none
find_customer customer (s ∷ ss) =
    if text_eq s.stripe_customer_id customer then some s else find_customer customer ss

abbrev pub find_user : ℕ → List Account → Option Account
find_user id [] = none
find_user id (u ∷ us) = if u.id == id then some u else find_user id us

abbrev pub is_after : ℕ → Option ℕ → Bool
is_after created_at none = false
is_after created_at (some last) = ltb created_at last

-- The row belongs to another subscription that is still live.
abbrev pub is_other : Option Text → Text → Text → Bool
is_other none id status = false
is_other (some own) id status = not (text_eq own id) && text_in status live_statuses

-- The plan of the row and that of the account, after a decision.
abbrev pub plans_after :
    PlanDecision → Option Text → Option Text → Option Text → Option Text × Option Text
plans_after (grant name) default row user = (some name, some name)
plans_after end default row user = (none, default)
plans_after (keep reason) default row user = (row, user)

abbrev pub is_unknown_price : PlanDecision → Bool
is_unknown_price (keep unknown_price) = true
is_unknown_price _ = false

unfoldable pub write_change : SubscriptionChange → Option Text → ℕ → Subscription → Subscription
write_change change plan created_at row = record row {
  stripe_subscription_id = some change.subscription_id;
  plan = plan;
  status = change.status;
  current_period_end = change.current_period_end;
  cancel_at_period_end = change.cancel_at_period_end;
  last_event_at = some created_at;
}

abbrev pub update_row : ℕ → (Subscription → Subscription) → List Subscription → List Subscription
update_row user f = map λ row. if row.user_id == user then f row else row

-- Writing a plan that the account has already changes nothing, so the test before it is left out.
abbrev pub update_user : ℕ → Option Text → List Account → List Account
update_user id plan = map λ u. if u.id == id then record u { plan = plan } else u

unfoldable pub write_decision :
    SubscriptionChange
    → Option Text
    → ℕ
    → PlanDecision
    → Subscription
    → Account
    → Store
    → Store × ApplyOutcome
unfolding write_change
write_decision change default created_at decision row user s =
    let (plan, user_plan) = plans_after decision default row.plan user.plan in
    (
      record s {
        subscriptions =
            update_row row.user_id (write_change change plan created_at) s.subscriptions;
        users = update_user row.user_id user_plan s.users;
      },
      applied (record {
        user_id = row.user_id;
        email = user.email;
        from = user.plan;
        to = user_plan;
        status = change.status;
        unknown_price = is_unknown_price decision;
      }),
    )

apply_user :
    SubscriptionChange
    → StripePlans
    → Option Text
    → ℕ
    → Subscription
    → Store
    → Option Account
    → Store × ApplyOutcome
apply_user change plans default created_at row s none = (s, failed)
apply_user change plans default created_at row s (some user) =
    write_decision change default created_at (decide_plan change plans) row user s

unfoldable pub apply_row :
    SubscriptionChange
    → StripePlans
    → Option Text
    → ℕ
    → Store
    → Option Subscription
    → Store × ApplyOutcome
unfolding apply_user
apply_row change plans default created_at s none = (s, unknown_customer)
apply_row change plans default created_at s (some row) =
    if is_after created_at row.last_event_at
    then (s, stale)
    else if is_other row.stripe_subscription_id change.subscription_id row.status
    then (s, other_subscription)
    else apply_user change plans default created_at row s (find_user row.user_id s.users)

abbrev pub is_failed : ApplyOutcome → Bool
is_failed failed = true
is_failed _ = false

unfoldable pub is_recorded : Text → Store → Bool
is_recorded id s = any (λ (e : Text × Text). text_eq e.0 id) s.events

-- `createMany` with `skipDuplicates`, of an event that is not recorded.
abbrev pub record_event : StripeEvent → Store → Store
record_event event s = record s { events = s.events ++ (event.id, event.type) ∷ [] }

-- `apply`: a transaction that throws leaves the tables as they were.
unfoldable pub apply :
    StripeEvent → SubscriptionChange → StripePlans → Option Text → Store → Store × ApplyOutcome
apply event change plans default s =
    let (s', outcome) =
      apply_row change plans default (event.created * 1000) (record_event event s)
        (find_customer change.customer_id s.subscriptions) in
    if is_recorded event.id s
    then (s, duplicate)
    else if is_failed outcome
    then (s, failed)
    else (s', outcome)
