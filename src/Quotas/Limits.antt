-- ===== src/Quotas/Limits.antt =====
-- How the limits of a plan bite.
use silence_watch.Prelude.{
  Bool, Option, Result, Text, arith, err, false, if◌then◌else◌, nat_eq, none, ok, refl, some,
  text_keys, true, ℕ, ◌<◌, ◌↔◌, ◌≡◌,
}
use silence_watch.Quotas.{
  Account, QuotaConfig, QuotaDb, QuotaExceeded, QuotaResource, assert_can_add_channel,
  assert_can_add_check, assert_can_add_project, check_room, checks_left, checks_quota,
  count_owned_checks, left_of, limits_for, limits_for_project, owner_of, remaining_checks,
  retention_days_for, within,
}

abbrev pub is_ok : Result QuotaExceeded (Unit {0}) → Bool
is_ok (ok done) = true
is_ok (err refused) = false

-- Where quotas are off nothing is limited.
pub quotas-off :
    (cfg : QuotaConfig) (project user requested : ℕ) (db : QuotaDb)
    → cfg.quotas_enabled ≡ false
    → (assert_can_add_check cfg project db ≡ ok tt)
      × (assert_can_add_project cfg user db ≡ ok tt)
      × (assert_can_add_channel cfg project db ≡ ok tt)
      × (remaining_checks cfg project db ≡ none)
      × (retention_days_for cfg project requested db ≡ requested)
unfolding assert_can_add_check assert_can_add_project assert_can_add_channel remaining_checks
    retention_days_for limits_for_project
quotas-off cfg project user requested db off =
    (rw off refl, rw off refl, rw off refl, rw off refl, rw off refl)

within-left :
    (resource : QuotaResource) (used : ℕ) (plan : Option Text) (limit : Option ℕ) (left : ℕ)
    → left_of used limit ≡ some left
    → (is_ok (within resource used plan limit) ≡ true) ↔ (0 < left)
within-left resource used plan none left h = cc
within-left resource used plan (some limit) left h = (λ e. ground arith, λ k. ground arith)

check_room-left :
    (cfg : QuotaConfig) (db : QuotaDb) (left : ℕ) (enabled : Bool) (u : Option Account)
    → (if enabled then checks_left cfg db u else none) ≡ some left
    → (is_ok (if enabled then check_room cfg db u else ok tt) ≡ true) ↔ (0 < left)
unfolding check_room checks_left
check_room-left cfg db left false u h = cc
check_room-left cfg db left true none h = cc
check_room-left cfg db left true (some u) h =
    within-left checks_quota (count_owned_checks u.id db) u.plan (limits_for cfg u.plan).checks left
      h

-- Where the account has a limit, the test lets a check be added exactly when the number that
-- remains for a sync is not zero.
pub remaining_checks-assert :
    (cfg : QuotaConfig) (project left : ℕ) (db : QuotaDb)
    → remaining_checks cfg project db ≡ some left
    → (is_ok (assert_can_add_check cfg project db) ≡ true) ↔ (0 < left)
unfolding remaining_checks assert_can_add_check
remaining_checks-assert cfg project left db =
    check_room-left cfg db left cfg.quotas_enabled (owner_of project db)
