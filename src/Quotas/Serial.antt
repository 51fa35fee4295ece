-- ===== src/Quotas/Serial.antt =====
-- Requests of one account, one after another.
use silence_watch.Prelude.{
  Bool-cases, List, Result, [], ap, arith, err, if◌then◌else◌, inl, inr, length-append_one, ltb,
  nat_eq, ok, some, text_keys, true, ℕ, ◌++◌, ◌+◌, ◌∙◌, ◌∷◌, ◌≡◌, ◌≤◌,
}
use silence_watch.Quotas.{
  Account, QuotaConfig, QuotaDb, QuotaExceeded, assert_can_add_check, check_room, checks_quota,
  count_owned_checks, limits_for, owner_of, owns, within,
}

abbrev pub created : Result QuotaExceeded (Unit {0}) → ℕ → QuotaDb → QuotaDb
created (ok done) project db = record db { check_projects = db.check_projects ++ project ∷ [] }
created (err refused) project db = db

-- What the creation of a check (checks/checks.service.ts), under the lock of `serialised`, does to
-- the tables that quotas read, where nothing but the quota refuses it.
unfoldable pub create_check : QuotaConfig → ℕ → QuotaDb → QuotaDb
create_check cfg project db = created (assert_can_add_check cfg project db) project db

unfoldable pub create_checks : QuotaConfig → List ℕ → QuotaDb → QuotaDb
create_checks cfg [] db = db
create_checks cfg (p ∷ ps) db = create_checks cfg ps (create_check cfg p db)

-- The account that owns a project and its limit of checks, where quotas are on.
abbrev pub IsLimited : QuotaConfig → QuotaDb → Account → ℕ → Type 0
IsLimited cfg db u limit =
    (cfg.quotas_enabled ≡ true)
    × ((limits_for cfg u.plan).checks ≡ some limit)
    × ((project : ℕ) → owns db.members u.id project ≡ true → owner_of project db ≡ some u)

-- The test of a project that the account owns.
assert-owned :
    (cfg : QuotaConfig) (project : ℕ) (db : QuotaDb) (u : Account) (limit : ℕ)
    → IsLimited cfg db u limit
    → owns db.members u.id project ≡ true
    → assert_can_add_check cfg project db
      ≡ within checks_quota (count_owned_checks u.id db) u.plan (some limit)
unfolding assert_can_add_check check_room
assert-owned cfg project db u limit (on, bounded, own) mine =
    ap (λ b. if b then check_room cfg db (owner_of project db) else ok tt) on
    ∙ ap (check_room cfg db) (own project mine)
    ∙ ap (within checks_quota (count_owned_checks u.id db) u.plan) bounded

count-created :
    (answer : Result QuotaExceeded (Unit {0})) (project : ℕ) (db : QuotaDb) (user : ℕ)
    → count_owned_checks user (created answer project db)
      ≤ count_owned_checks user db + (if owns db.members user project then 1 else 0)
unfolding count_owned_checks
count-created (ok done) project db user =
    omega (arith, length-append_one (owns db.members user) db.check_projects project)
count-created (err refused) project db user = omega arith

count-create_check :
    (cfg : QuotaConfig) (project : ℕ) (db : QuotaDb) (u : Account) (limit : ℕ)
    → IsLimited cfg db u limit
    → count_owned_checks u.id db ≤ limit
    → count_owned_checks u.id (create_check cfg project db) ≤ limit
unfolding create_check
count-create_check cfg project db u limit wf h =
    let answer = assert_can_add_check cfg project db in
    elim (Bool-cases (owns db.members u.id project)) [
      | inr foreign ↦ ground (arith, count-created answer project db u.id)
      | inl mine ↦
          rw (assert-owned cfg project db u limit wf mine)
            (elim (Bool-cases (ltb limit (count_owned_checks u.id db + 1))) [
              | inl full ↦ rw full h
              | inr room ↦ rw room (ground (arith, count-created (ok tt) project db u.id))
            ])
    ]

created-IsLimited :
    (cfg : QuotaConfig) (answer : Result QuotaExceeded (Unit {0})) (project : ℕ) (db : QuotaDb)
    (u : Account) (limit : ℕ)
    → IsLimited cfg db u limit
    → IsLimited cfg (created answer project db) u limit
unfolding owner_of
created-IsLimited cfg (ok done) project db u limit wf = wf
created-IsLimited cfg (err refused) project db u limit wf = wf

-- Where quotas are on and each project of an account names it as its owner, requests that create
-- checks, in any projects and one after another, do not take it over the limit of its plan.
pub count-create_checks :
    (cfg : QuotaConfig) (projects : List ℕ) (db : QuotaDb) (u : Account) (limit : ℕ)
    → IsLimited cfg db u limit
    → count_owned_checks u.id db ≤ limit
    → count_owned_checks u.id (create_checks cfg projects db) ≤ limit
unfolding create_checks create_check
count-create_checks cfg [] db u limit wf h = h
count-create_checks cfg (p ∷ ps) db u limit wf h =
    count-create_checks cfg ps (create_check cfg p db) u limit
      (created-IsLimited cfg (assert_can_add_check cfg p db) p db u limit wf)
      (count-create_check cfg p db u limit wf h)
