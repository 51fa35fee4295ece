-- ===== src/Retention/Caps.antt =====
-- The window that the purge keeps, and the one that the quota service promises.
use silence_watch.Checks.{or_else}
use silence_watch.Retention.{ProjectRow, cap_for, caps_of, days_kept, int_max, retention_caps}
use silence_watch.OrderedMap.{get}
use silence_watch.Prelude.{
  Bool, Bool-cases, List, Option, Option-cases, Text, [], any, ap, arith, false, if◌then◌else◌, inl,
  inr, min, nat_eq, none, refl, some, subst, sym, text_eq, text_eq_iff, text_keys, true, ℕ, ◌∙◌,
  ◌∷◌, ◌≡◌, ◌≤◌,
}
use silence_watch.Quotas.{
  PlanLimits, QuotaConfig, QuotaDb, capped_by, limits_for, limits_for_project, or_unlimited,
  owner_of, plan_of, retention_days_for, unlimited,
}

abbrev pub names_key {ℓ} : {A : Type ℓ} → Text → List (Text × A) → Bool
names_key k m = any (λ e. text_eq e.0 k) m

-- An object has one entry for each of its keys.
abbrev pub IsObject {ℓ} : {A : Type ℓ} → List (Text × A) → Type 0
IsObject [] = Unit
IsObject ((k, v) ∷ m) = (names_key k m ≡ false) × IsObject m

abbrev retention_of : Option PlanLimits → Option ℕ
retention_of none = none
retention_of (some limits) = limits.retention_days

get-absent {ℓ} :
    {A : Type ℓ} (plan : Text) (m : List (Text × A)) → names_key plan m ≡ false → get plan m ≡ none
unfolding get
get-absent plan [] h = refl
get-absent plan ((k, v) ∷ m) h = ground (arith, get-absent plan m)

get-caps_absent :
    (plan : Text) (m : List (Text × PlanLimits))
    → names_key plan m ≡ false
    → get plan (caps_of m) ≡ none
unfolding get caps_of
get-caps_absent plan [] h = refl
get-caps_absent plan ((k, v) ∷ m) h = elim (Option-cases v.retention_days) [
  | inl e ↦ rw e (ground (arith, get-caps_absent plan m))
  | inr (days, e) ↦ rw e (ground (arith, get-caps_absent plan m))
]

get-caps_of :
    (plan : Text) (m : List (Text × PlanLimits))
    → IsObject m
    → get plan (caps_of m) ≡ retention_of (get plan m)
unfolding get caps_of
get-caps_of plan [] h = refl
get-caps_of plan ((k, v) ∷ m) (alone, h) = elim (Bool-cases (text_eq k plan)) [
  | inl here ↦ elim (Option-cases v.retention_days) [
    | inl e ↦ rw e (
        rw here (
          get-caps_absent plan m
            (subst (λ j. names_key j m ≡ false) ((text_eq_iff k plan).0 here) alone)))
    | inr (days, e) ↦ rw e (rw here refl)
  ]
  | inr there ↦ elim (Option-cases v.retention_days) [
    | inl e ↦ rw e (rw there (get-caps_of plan m h))
    | inr (days, e) ↦ rw e (rw there (get-caps_of plan m h))
  ]
]

retention_of-unlimited : (o : Option PlanLimits) → retention_of o ≡ (or_unlimited o).retention_days
retention_of-unlimited none = refl
retention_of-unlimited (some limits) = refl

cap_for-limits :
    (cfg : QuotaConfig) (plan : Option Text)
    → cfg.quotas_enabled ≡ true
    → IsObject cfg.plan_limits
    → cap_for (caps_of cfg.plan_limits) plan ≡ (limits_for cfg plan).retention_days
unfolding limits_for
cap_for-limits cfg none on object = refl
cap_for-limits cfg (some plan) on object =
    rw on
      (get-caps_of plan cfg.plan_limits object ∙ retention_of-unlimited (get plan cfg.plan_limits))

cap_for-none : (plan : Option Text) → cap_for [] plan ≡ none
unfolding get
cap_for-none none = refl
cap_for-none (some plan) = refl

min-capped_by :
    (cap : Option ℕ) (days : ℕ)
    → days ≤ int_max
    → min days (or_else cap int_max) ≡ capped_by cap days
min-capped_by none days h = omega arith
min-capped_by (some cap) days h = refl

-- For plans that are the keys of an object, and a window that an `int` holds, the days that the
-- purge keeps of a project are those that the quota service answers for it.
pub days_kept-quota :
    (cfg : QuotaConfig) (default_days : ℕ) (accounts : QuotaDb) (project : ProjectRow)
    → IsObject cfg.plan_limits
    → or_else project.ping_retention_days default_days ≤ int_max
    → days_kept cfg default_days accounts project
      ≡ retention_days_for cfg project.id
          (or_else project.ping_retention_days default_days)
          accounts
unfolding days_kept retention_days_for limits_for_project retention_caps
days_kept-quota cfg default_days accounts project object fits =
    let days = or_else project.ping_retention_days default_days in
    let plan = plan_of (owner_of project.id accounts) in
    let kept = λ (b : Bool).
      min days (or_else (cap_for (if b then caps_of cfg.plan_limits else []) plan) int_max) in
    let promised =
      λ (b : Bool). capped_by (if b then limits_for cfg plan else unlimited).retention_days days in
    elim (Bool-cases cfg.quotas_enabled) [
      | inl on ↦
          ap kept on
          ∙ ap (λ c. min days (or_else c int_max)) (cap_for-limits cfg plan on object)
          ∙ min-capped_by (limits_for cfg plan).retention_days days fits
          ∙ sym (ap promised on)
      | inr off ↦
          ap kept off
          ∙ ap (λ c. min days (or_else c int_max)) (cap_for-none plan)
          ∙ min-capped_by none days fits
          ∙ sym (ap promised off)
    ]
