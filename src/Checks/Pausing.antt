-- ===== src/Checks/Pausing.antt =====
-- What the resumption of a check does to the counts that the quota enforcer goes by.
use silence_watch.Quotas.{Account}
use silence_watch.Quotas.Enforcer.{EnforcerDb, is_quota, owned, owner_row}
use mathlib.Core.Option.{some-injective}
use silence_watch.Tables.{Check, new, paused, quota}
use silence_watch.Checks.Requests.{UpdateCheckRequest}
use silence_watch.Schedule.{Cron, compute_next_due_at}
use silence_watch.Checks.{
  CheckUpdate, ChecksDb, change_pause, change_schedule, find_by_id, invalidated, plain_update,
  update, update_data, with_checks, write_row, write_update,
}
use silence_watch.Prelude.{
  ==_iff, Bool, Bool-cases, In, List, [], ap, arith, false, filter, if◌then◌else◌, inl, inr, length,
  map, nat_eq, none, not, ok, refl, some, subst, sym, text_keys, true, ℕ, ◌==◌, ◌∙◌, ◌∷◌, ◌≡◌,
}

pub find-In :
    (id : ℕ) (c : Check) (cs : List Check) → find_by_id id cs ≡ some c → In c cs × (c.id ≡ id)
unfolding find_by_id
find-In id c [] h = absurd cc
find-In id c (x ∷ cs) h = elim (Bool-cases (x.id == id)) [
  | inl e ↦
      let same : x ≡ c = some-injective x c (rw e at h) in
      (inl same, subst (λ (y : Check). y.id ≡ id) same ((==_iff x.id id).0 e))
  | inr e ↦ let (m, i) = find-In id c cs (rw e at h) in (inr m, i)
]

find-write_row :
    (id : ℕ) (f : Check → Check) (c : Check) (cs : List Check)
    → ((x : Check) → (f x).id ≡ x.id)
    → find_by_id id cs ≡ some c
    → find_by_id id (write_row id f cs) ≡ some (f c)
unfolding find_by_id
find-write_row id f c [] steady h = absurd cc
find-write_row id f c (x ∷ cs) steady h = elim (Bool-cases (x.id == id)) [
  | inl e ↦
      let same : x ≡ c = some-injective x c (rw e at h) in
      rw e (rw (ap (λ i. i == id) (steady x) ∙ e) (ap (λ y. some (f y)) same))
  | inr e ↦ rw e (rw e (find-write_row id f c cs steady (rw e at h)))
]

pub find-write_found :
    (id : ℕ) (f : Check → Check) (c : Check) (cs : List Check)
    → ((x : Check) → (f x).id ≡ x.id)
    → find_by_id id cs ≡ some c
    → find_by_id id (write_row c.id f cs) ≡ some (f c)
find-write_found id f c cs steady h =
    subst (λ k. find_by_id id (write_row k f cs) ≡ some (f c)) (sym (find-In id c cs h).1)
      (find-write_row id f c cs steady h)

module _ (next : Cron) (now check_id : ℕ) (input : UpdateCheckRequest) (db : ChecksDb) where
  pub update-ok :
      (existing : Check) (columns : CheckUpdate)
      → find_by_id check_id db.tables.checks ≡ some existing
      → update_data next now existing input ≡ ok columns
      → update next now check_id input db ≡ (
        invalidated
            (with_checks db (write_row existing.id (write_update now columns) db.tables.checks))
            (write_update now columns existing).ping_key,
        ok (write_update now columns existing),
      )
  unfolding update
  update-ok existing columns found h = rw found (rw h refl)

  update_data-wanted :
      (existing : Check) (due : ℕ)
      → existing.state ≡ paused
      → input.is_paused ≡ some false
      → input.schedule.schedule_type ≡ none
      → compute_next_due_at next existing.schedule now ≡ ok due
      → update_data next now existing input
        ≡ ok (record (plain_update input) { state = some new; next_due_at = some due })
  unfolding update_data change_schedule change_pause
  update_data-wanted existing due stopped wanted kept h =
      rw kept (rw wanted (rw stopped (rw h refl)))

count-kept :
    (p q : Check → Bool) (f : Check → Check) (cs : List Check)
    → ((c : Check) → p (f c) ≡ p c)
    → ((c : Check) → q (f c) ≡ q c)
    → length (filter q (filter p (map f cs))) ≡ length (filter q (filter p cs))
count-kept p q f [] h e = refl
count-kept p q f (c ∷ cs) h e = ground (arith, h c, e c, count-kept p q f cs h e)

if-kept :
    {A : Type 0} (test : Bool) (f : Check → A) (c d : Check)
    → f d ≡ f c
    → f (if test then d else c) ≡ f c
if-kept true f c d h = h
if-kept false f c d h = refl

owner_row-write_update :
    (db : EnforcerDb) (id now : ℕ) (columns : CheckUpdate) (u : Account)
    → (owner_row
        (record db { checks = write_row id (write_update now columns) db.checks })
        u).active_checks
      ≡ (owner_row db u).active_checks
unfolding write_update
owner_row-write_update db id now columns u =
    count-kept (owned db.members u.id) (λ (c : Check). not (is_quota c.paused_reason))
      (λ c. if c.id == id then write_update now columns c else c) db.checks
      (λ c. if-kept (c.id == id) (owned db.members u.id) c (write_update now columns c) refl)
      (λ c.
        if-kept (c.id == id) (λ (x : Check). not (is_quota x.paused_reason)) c
          (write_update now columns c) refl)

-- A check that the plan paused, resumed by a request that changes no schedule, where its schedule
-- has a next time: it runs again, while its row still says that the plan paused it, and no account
-- has one active check more in the count that the enforcer compares with the limit.
pub update-past_plan :
    (next : Cron) (now check_id : ℕ) (input : UpdateCheckRequest) (db : ChecksDb) (existing : Check)
    (due : ℕ)
    → find_by_id check_id db.tables.checks ≡ some existing
    → existing.state ≡ paused
    → existing.paused_reason ≡ some quota
    → input.is_paused ≡ some false
    → input.schedule.schedule_type ≡ none
    → compute_next_due_at next existing.schedule now ≡ ok due
    → let after = (update next now check_id input db).0.tables in
      ((c : Check) × (find_by_id check_id after.checks ≡ some c)
        × (c.state ≡ new)
        × (c.next_due_at ≡ some due)
        × (c.paused_reason ≡ some quota))
      × ((u : Account) → (owner_row after u).active_checks ≡ (owner_row db.tables u).active_checks)
unfolding write_update
update-past_plan next now check_id input db existing due found stopped why wanted kept h =
    let columns : CheckUpdate = record (plain_update input) {
      state = some new;
      next_due_at = some due;
    } in
    rw
      (update-ok next now check_id input db existing columns found
        (update_data-wanted next now check_id input db existing due stopped wanted kept h))
      (
        (
          write_update now columns existing,
          find-write_found check_id (write_update now columns) existing db.tables.checks (λ x. refl)
              found,
          refl,
          refl,
          why,
        ),
        λ u. owner_row-write_update db.tables existing.id now columns u,
      )
