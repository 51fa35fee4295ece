-- ===== src/Billing/Plans.antt =====
-- Which plan an event leads to.
use silence_watch.Prelude.{
  Bool-cases, In, Option, Text, [], ap, arith, false, inl, inr, nat_eq, none, some, sym,
  text_eq_iff, text_keys, true, ◌∷◌, ◌≡◌,
}
use silence_watch.Billing.{
  StripePlans, SubscriptionChange, decide_plan, end, ended_statuses, grant, is_price, keep,
  live_statuses, not_settled, plan_of_price, text_in,
}

is_price-some :
    (price_id : Option Text) (price : Text) → is_price price_id price ≡ true → price_id ≡ some price
is_price-some none price h = cc
is_price-some (some id) price h = ap some (sym ((text_eq_iff price id).0 h))

plan_of_price-grant :
    (plans : StripePlans) (price_id : Option Text) (p : Text)
    → plan_of_price plans price_id ≡ grant p
    → (price : Text) × In (p, price) plans × (price_id ≡ some price)
unfolding plan_of_price
plan_of_price-grant [] price_id p h = cc
plan_of_price-grant ((name, price) ∷ plans) price_id p h =
    elim (Bool-cases (is_price price_id price)) [
      | inl here ↦
          let same : name ≡ p = ground arith in
          (price, inl (ap (λ (n : Text). (n, price)) same), is_price-some price_id price here)
      | inr past ↦
          let (found, m, e) = plan_of_price-grant plans price_id p (ground arith) in
          (found, inr m, e)
    ]

-- A plan is granted only to a subscription that is live and not over, and only for the price that
-- the plan is configured with.
pub decide_plan-grant :
    (change : SubscriptionChange) (plans : StripePlans) (p : Text)
    → decide_plan change plans ≡ grant p
    → (text_in change.status live_statuses ≡ true)
      × (text_in change.status ended_statuses ≡ false)
      × ((price : Text) × In (p, price) plans × (change.price_id ≡ some price))
unfolding decide_plan
decide_plan-grant change plans p h = elim (Bool-cases (text_in change.status ended_statuses)) [
  | inl over ↦ let clash : end ≡ grant p = rw over at h in cc
  | inr open_one ↦ elim (Bool-cases (text_in change.status live_statuses)) [
    | inl live ↦
        (live, open_one, plan_of_price-grant plans change.price_id p (rw (open_one, live) at h))
    | inr dead ↦ let clash : keep not_settled ≡ grant p = rw (open_one, dead) at h in cc
  ]
]
