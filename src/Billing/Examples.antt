-- ===== src/Billing/Examples.antt =====
-- One customer whose subscription begins.
use silence_watch.Billing.Signing.{IsDigest, verify_stripe_signature-sign}
use silence_watch.Billing.Carrying.{Carries, IsHexOf, IsTime, verify_stripe_signature-Carries}
use silence_watch.Billing.Signature.{
  distance, sign_stripe_payload, signature_tolerance_seconds, signed_message,
  verify_stripe_signature,
}
use silence_watch.Prelude.{
  Text, [], arith, decimal, false, map, nat_eq, none, refl, some, split_on, suc, take, text,
  text_keys, true, zero, ℕ, ◌%◌, ◌++◌, ◌+◌, ◌∷◌, ◌≡◌, ◌≤◌,
}
use silence_watch.Billing.{
  Store, StripeEvent, StripePlans, Subscription, SubscriptionChange, absent, apply, apply_row,
  apply_user, bare, change_of, decide_plan, duplicate, expanded, grant, is_failed, is_recorded,
  plan_of_price, read_subscription_event, seconds, status_of, truth, with_ids, word, write_change,
  write_decision,
}
use silence_watch.Billing.Once.{apply-duplicate}

abbrev plans : StripePlans
plans = (text "team", text "price_2") ∷ []

abbrev event : StripeEvent
event = record {
  id = text "evt_1";
  type = text "customer.subscription.created";
  created = 1000;
  object = record {
    customer = bare (word (text "cus_1"));
    id = word (text "sub_1");
    status = word (text "active");
    items = some (
        record { price = expanded (word (text "price_2")); current_period_end = seconds 9000 }
        ∷ []);
    current_period_end = absent;
    cancel_at_period_end = truth false;
  };
}

abbrev change : SubscriptionChange
change = record {
  customer_id = text "cus_1";
  subscription_id = text "sub_1";
  status = text "active";
  price_id = some (text "price_2");
  current_period_end = some 9000000;
  cancel_at_period_end = false;
}

event_read : read_subscription_event event ≡ some change
unfolding read_subscription_event change_of status_of with_ids
event_read = refl

abbrev customer : Subscription
customer = record {
  user_id = 1;
  stripe_customer_id = text "cus_1";
  stripe_subscription_id = none;
  plan = none;
  status = [];
  current_period_end = none;
  cancel_at_period_end = false;
  last_event_at = none;
}

abbrev store_of : Subscription → Store
store_of row = record {
  events = [];
  subscriptions = row ∷ [];
  users = record { id = 1; email = text "a@b.c"; plan = none } ∷ [];
}

first_applied : is_failed (apply event change plans none (store_of customer)).1 ≡ false
unfolding apply apply_row apply_user write_decision write_change is_recorded decide_plan
    plan_of_price
first_applied = refl

apply-duplicate_example :
    let s' = (apply event change plans none (store_of customer)).0 in
    apply event change plans none s' ≡ (s', duplicate)
apply-duplicate_example = apply-duplicate event change plans none (store_of customer) first_applied

abbrev newer : Subscription
newer = record customer { last_event_at = some 2000000 }

granted : decide_plan change plans ≡ grant (text "team")
unfolding decide_plan plan_of_price
granted = refl

abbrev many_zeros : ℕ → Text
many_zeros zero = []
many_zeros (suc n) = b'0' ∷ many_zeros n

-- A digest of sixty-four digits, which depends on the message.
abbrev folded : Text → Text → Text
folded secret message = take 64 (map (λ c. b'0' + c % 10) (secret ++ message) ++ many_zeros 64)

abbrev payload : Text
payload = text "{}"

folded-IsDigest : IsDigest (folded (text "whsec") (signed_message folded 1700000000 payload))
unfolding signed_message decimal
folded-IsDigest = (refl, refl)

verify_stripe_signature-sign_example :
    verify_stripe_signature folded payload
      (some (sign_stripe_payload folded payload (text "whsec") 1700000000))
      (text "whsec")
      1700000100
      signature_tolerance_seconds
    ≡ true
verify_stripe_signature-sign_example =
    verify_stripe_signature-sign folded payload (text "whsec") 1700000000 1700000100
      signature_tolerance_seconds (omega arith) folded-IsDigest

abbrev header : Text
header = sign_stripe_payload folded payload (text "whsec") 1700000000

verify_stripe_signature-Carries_example :
    (t : ℕ) × (distance 1700000100 t ≤ 300)
    × Carries (text "t") (IsTime t) (split_on b',' header)
    × Carries
        (text "v1")
        (IsHexOf (folded (text "whsec") (signed_message folded t payload)))
        (split_on b',' header)
verify_stripe_signature-Carries_example =
    verify_stripe_signature-Carries folded payload header (text "whsec") 1700000100 300
      verify_stripe_signature-sign_example
