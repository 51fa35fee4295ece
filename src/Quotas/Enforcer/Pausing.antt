-- ===== src/Quotas/Enforcer/Pausing.antt =====
-- How far a pause brings an account down.
use silence_watch.Quotas.{Account}
use silence_watch.Prelude.{
  All-of_In, Bool, In, In-map, In-of_filter, In-of_sort_by, In-of_take, List, Option, [], ap, arith,
  count-filter, count-map, count-map_ge, count-sort_by, count-split, count-take, count-weaker,
  filter, filter-true, if◌then◌else◌, inl, inr, length, length-map, length-sort_by, length-take,
  ltb, min, nat_eq, none, not, refl, some, sort_by, text_keys, true, ℕ, ◌&&◌, ◌+◌, ◌-◌, ◌<◌, ◌∷◌,
  ◌≡◌, ◌≤◌, ◌⊎◌,
}
use silence_watch.Tables.{Check, PausedReason, is_none, mem, quota}
use silence_watch.Tables.Members.{IsKeyed, count-mem, mem-In}
use silence_watch.Quotas.Enforcer.{
  EnforcerDb, Reconciled, doomed, ids_of, is_quota, newest_first, oldest_first, owned, owner_row,
  pause_excess, pause_row, reconcile_owner, reverse_onto,
}

-- The checks of an account that count as active.
abbrev pub active : EnforcerDb → ℕ → Check → Bool
active db user c = owned db.members user c && is_none c.paused_reason

count-reverse_onto :
    (p : Check → Bool) (done cs : List Check)
    → length (filter p (reverse_onto done cs)) ≡ length (filter p done) + length (filter p cs)
count-reverse_onto p done [] = omega arith
count-reverse_onto p done (c ∷ cs) = ground (arith, count-reverse_onto p (c ∷ done) cs)

count-newest_first :
    (p : Check → Bool) (cs : List Check)
    → length (filter p (newest_first cs)) ≡ length (filter p cs)
count-newest_first p cs = omega (
  arith,
  count-reverse_onto p [] (oldest_first cs),
  count-sort_by (λ (c : Check). c.created_at) p (sort_by (λ (c : Check). c.id) cs),
  count-sort_by (λ (c : Check). c.id) p cs,
)

In-of_reverse_onto :
    (a : Check) (done cs : List Check) → In a (reverse_onto done cs) → In a done ⊎ In a cs
In-of_reverse_onto a done [] m = inl m
In-of_reverse_onto a done (c ∷ cs) m = elim (In-of_reverse_onto a (c ∷ done) cs m) [
  | inl (inl e) ↦ inr (inl e)
  | inl (inr n) ↦ inl n
  | inr n ↦ inr (inr n)
]

doomed-active :
    (user count : ℕ) (db : EnforcerDb) (c : Check)
    → In c (doomed user count db)
    → active db user c ≡ true
unfolding doomed
doomed-active user count db c m =
    let mine = filter (active db user) db.checks in
    elim (In-of_reverse_onto c [] (oldest_first mine) (In-of_take count c (newest_first mine) m)) [
      | inl none_there ↦ absurd none_there
      | inr n ↦
          (In-of_filter (active db user) c db.checks (
            In-of_sort_by (λ (x : Check). x.id) c mine
              (In-of_sort_by (λ (x : Check). x.created_at) c (sort_by (λ (x : Check). x.id) mine)
                n))).1
    ]

-- What is selected is found in the table among the active checks with one of the ids.
doomed-count :
    (user count : ℕ) (db : EnforcerDb)
    → length (doomed user count db)
      ≤ length
          (filter (λ c. active db user c && mem c.id (ids_of (doomed user count db))) db.checks)
unfolding doomed
doomed-count user count db =
    let rows = doomed user count db in
    let mine = filter (active db user) db.checks in
    let p = λ (c : Check). active db user c && mem c.id (ids_of rows) in
    let all_p = filter-true p rows (
      All-of_In rows (λ c m. ground (
        arith,
        doomed-active user count db c m,
        mem-In c.id (ids_of rows) (In-map (λ (x : Check). x.id) c rows m),
      ))) in
    omega (
      arith,
      ap length all_p,
      count-take p count (newest_first mine),
      count-newest_first p mine,
      count-filter p (active db user) db.checks,
    )

pub length-reverse_onto :
    (done cs : List Check) → length (reverse_onto done cs) ≡ length done + length cs
length-reverse_onto done [] = omega arith
length-reverse_onto done (c ∷ cs) = omega (arith, length-reverse_onto (c ∷ done) cs)

length-doomed :
    (user count : ℕ) (db : EnforcerDb)
    → length (doomed user count db) ≡ min count (length (filter (active db user) db.checks))
unfolding doomed
length-doomed user count db =
    let mine = filter (active db user) db.checks in
    ground (
      arith,
      length-take count (newest_first mine),
      length-reverse_onto [] (oldest_first mine),
      length-sort_by (λ (c : Check). c.created_at) (sort_by (λ (c : Check). c.id) mine),
      length-sort_by (λ (c : Check). c.id) mine,
    )

not-quota : (r : Option PausedReason) → not (is_quota r) ≡ is_none r
not-quota none = refl
not-quota (some quota) = refl

-- The count of the statement is the number of the active checks.
pub count-owner_row :
    (db : EnforcerDb) (user : ℕ) (cs : List Check)
    → length
        (filter (λ (c : Check). not (is_quota c.paused_reason)) (filter (owned db.members user) cs))
      ≡ length (filter (active db user) cs)
count-owner_row db user [] = refl
count-owner_row db user (c ∷ cs) =
    ground (arith, not-quota c.paused_reason, count-owner_row db user cs)

-- No row is selected twice, where ids are a primary key.
doomed-count_le :
    (user count : ℕ) (db : EnforcerDb)
    → IsKeyed (λ (c : Check). c.id) db.checks
    → length (filter (λ c. active db user c && mem c.id (ids_of (doomed user count db))) db.checks)
      ≤ length (doomed user count db)
doomed-count_le user count db keyed =
    let rows = doomed user count db in
    let taken = λ (c : Check). mem c.id (ids_of rows) in
    omega (
      arith,
      count-weaker (λ c. active db user c && taken c) taken db.checks (λ c h. ground arith),
      count-mem (λ (c : Check). c.id) (ids_of rows) db.checks keyed,
      length-map rows (λ (c : Check). c.id),
    )

-- Pausing takes the selected checks, and no others, from the active ones.
count-pause_excess :
    (now user count : ℕ) (db : EnforcerDb)
    → IsKeyed (λ (c : Check). c.id) db.checks
    → length (filter (active db user) (pause_excess now user count db).0.checks)
        + min count (length (filter (active db user) db.checks))
      ≡ length (filter (active db user) db.checks)
unfolding pause_excess
count-pause_excess now user count db keyed =
    let rows = doomed user count db in
    let taken = λ (c : Check). mem c.id (ids_of rows) in
    let f = λ (c : Check). if taken c then pause_row now c else c in
    let left = λ (c : Check). active db user c && not (taken c) in
    omega (
      arith,
      count-split (active db user) taken db.checks,
      count-map (active db user) left f db.checks (λ c h. ground arith),
      count-map_ge (active db user) left f db.checks (λ c h. ground arith),
      doomed-count user count db,
      doomed-count_le user count db keyed,
      length-doomed user count db,
    )

-- Where the ids of checks are a primary key, an account with more active checks than its plan allows
-- is left by its round of the loop with exactly as many as the plan allows.
pub reconcile_owner-limit :
    (now limit : ℕ) (db : EnforcerDb) (u : Account) (r : Reconciled)
    → IsKeyed (λ (c : Check). c.id) db.checks
    → limit < (owner_row db u).active_checks
    → length (
        filter
          (active db u.id)
          (reconcile_owner now (owner_row db u) (some limit) (db, r)).0.checks)
      ≡ limit
unfolding reconcile_owner
reconcile_owner-limit now limit db u r keyed over =
    let used = count-owner_row db u.id db.checks in
    let excess = (owner_row db u).active_checks - limit in
    let test : ltb limit (owner_row db u).active_checks ≡ true = ground arith in
    rw test (omega (arith, used, over, count-pause_excess now u.id excess db keyed))
