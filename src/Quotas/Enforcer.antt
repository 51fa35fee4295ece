-- ===== src/Quotas/Enforcer.antt =====
-- quotas/quota-enforcer.service.ts: the loop that reconciles accounts with the plan they are on.
-- The audit entry and the email of a pause are left out; `stopped` are the names that they carry.
pub mod Pausing
pub mod Forgetting
mod Examples
use silence_watch.Prelude.{
  Bool, List, Option, Text, [], any, false, filter, if◌then◌else◌, length, ltb, map, nat_eq, none,
  not, some, sort_by, suc, take, text_keys, true, zero, ℕ, ◌&&◌, ◌+◌, ◌-◌, ◌∷◌,
}
use silence_watch.Tables.{Check, PausedReason, is_none, mem, new, paused, quota, start}
use silence_watch.Quotas.{Account, Membership, QuotaConfig, limits_for, owns}

pub record EnforcerDb : Type 0 where
  pub members : List Membership
  pub users : List Account
  pub checks : List Check

pub record OwnerRow : Type 0 where
  pub user_id : ℕ
  pub plan : Option Text
  pub active_checks : ℕ
  pub paused_by_quota : ℕ

abbrev pub owned : List Membership → ℕ → Check → Bool
owned ms user c = owns ms user c.project_id

abbrev pub is_quota : Option PausedReason → Bool
is_quota (some quota) = true
is_quota _ = false

abbrev pub owner_row : EnforcerDb → Account → OwnerRow
owner_row db u =
    let mine = filter (owned db.members u.id) db.checks in
    record {
      user_id = u.id;
      plan = u.plan;
      active_checks = length (filter (λ (c : Check). not (is_quota c.paused_reason)) mine);
      paused_by_quota = length (filter (λ (c : Check). is_quota c.paused_reason) mine);
    }

unfoldable pub owners_with_checks : EnforcerDb → List OwnerRow
owners_with_checks db =
    map (owner_row db) (filter (λ (u : Account). any (owned db.members u.id) db.checks) db.users)

-- `createdAt` first, then `id`.
abbrev pub oldest_first : List Check → List Check
oldest_first cs = sort_by (λ (c : Check). c.created_at) (sort_by (λ (c : Check). c.id) cs)

abbrev pub reverse_onto : List Check → List Check → List Check
reverse_onto done [] = done
reverse_onto done (c ∷ cs) = reverse_onto (c ∷ done) cs

abbrev pub newest_first : List Check → List Check
newest_first cs = reverse_onto [] (oldest_first cs)

unfoldable pub doomed : ℕ → ℕ → EnforcerDb → List Check
doomed user count db = take count (
    newest_first
      (filter (λ (c : Check). owned db.members user c && is_none c.paused_reason) db.checks))

abbrev pub pause_row : ℕ → Check → Check
pause_row now c = record c {
  state = paused;
  paused_reason = some quota;
  next_due_at = none;
  updated_at = now;
}

abbrev pub resume_row : ℕ → Check → Check
resume_row now c = record c { state = new; paused_reason = none; updated_at = now }

-- `updateMany` of the rows with these ids.
abbrev pub update_checks : List ℕ → (Check → Check) → List Check → List Check
update_checks ids f = map λ c. if mem c.id ids then f c else c

abbrev pub ids_of : List Check → List ℕ
ids_of = map λ c. c.id

unfoldable pub pause_excess : ℕ → ℕ → ℕ → EnforcerDb → EnforcerDb × List Text
pause_excess now user count db =
    let rows = doomed user count db in
    (
      record db { checks = update_checks (ids_of rows) (pause_row now) db.checks },
      map (λ (c : Check). c.name) rows,
    )

-- The rows to resume; no limit of the plan is `none`.
unfoldable pub revived : ℕ → Option ℕ → EnforcerDb → List Check
revived user room db =
    let mine =
      oldest_first
        (filter (λ (c : Check). owned db.members user c && is_quota c.paused_reason) db.checks) in
    elim room [ none ↦ mine | some n ↦ take n mine ]

unfoldable pub resume : ℕ → ℕ → Option ℕ → EnforcerDb → EnforcerDb × ℕ
resume now user room db =
    let rows = revived user room db in
    (record db { checks = update_checks (ids_of rows) (resume_row now) db.checks }, length rows)

pub record Reconciled : Type 0 where
  pub paused_count : ℕ
  pub resumed_count : ℕ
  pub accounts : ℕ

abbrev pub one_if : ℕ → ℕ
one_if zero = 0
one_if (suc n) = 1

abbrev pub after_resume : Reconciled → EnforcerDb × ℕ → EnforcerDb × Reconciled
after_resume r (db, back) =
    (db, record r { resumed_count = r.resumed_count + back; accounts = r.accounts + one_if back })

abbrev pub after_pause : Reconciled → EnforcerDb × List Text → EnforcerDb × Reconciled
after_pause r (db, stopped) = (
  db,
  record r {
    paused_count = r.paused_count + length stopped;
    accounts = r.accounts + one_if (length stopped);
  },
)

-- One round of the loop, by the limit of the owner's plan.
unfoldable pub reconcile_owner :
    ℕ → OwnerRow → Option ℕ → EnforcerDb × Reconciled → EnforcerDb × Reconciled
reconcile_owner now row none (db, r) = after_resume r (resume now row.user_id none db)
reconcile_owner now row (some limit) (db, r) =
    if ltb limit row.active_checks
    then after_pause r (pause_excess now row.user_id (row.active_checks - limit) db)
    else if ltb 0 row.paused_by_quota
    then after_resume r (resume now row.user_id (some (limit - row.active_checks)) db)
    else (db, r)

unfoldable pub reconcile_owners :
    QuotaConfig → ℕ → List OwnerRow → EnforcerDb × Reconciled → EnforcerDb × Reconciled
reconcile_owners cfg now [] acc = acc
reconcile_owners cfg now (o ∷ os) acc =
    reconcile_owners cfg now os (reconcile_owner now o (limits_for cfg o.plan).checks acc)

unfoldable pub reconcile : QuotaConfig → ℕ → EnforcerDb → EnforcerDb × Reconciled
reconcile cfg now db =
    let start : Reconciled = record { paused_count = 0; resumed_count = 0; accounts = 0 } in
    if cfg.quotas_enabled
    then reconcile_owners cfg now (owners_with_checks db) (db, start)
    else (db, start)
