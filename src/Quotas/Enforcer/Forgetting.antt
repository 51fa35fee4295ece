-- ===== src/Quotas/Enforcer/Forgetting.antt =====
-- A person's pause, across a plan that shrinks to nothing and is lifted.
use silence_watch.Tables.Members.{mem-In}
use silence_watch.Quotas.Enforcer.Pausing.{active, count-owner_row, length-reverse_onto}
use silence_watch.Quotas.Enforcer.{
  EnforcerDb, Reconciled, doomed, ids_of, is_quota, newest_first, oldest_first, owned, owner_row,
  pause_excess, pause_row, reconcile_owner, resume, resume_row, reverse_onto, revived,
  update_checks,
}
use silence_watch.Tables.{Check, mem, paused, quota}
use silence_watch.Prelude.{
  In, In-filter, In-map, In-sort_by, In-take_all, List, [], arith, filter, if◌then◌else◌, inl, inr,
  length, length-In, length-sort_by, ltb, nat_eq, none, refl, some, sort_by, subst, take, text_keys,
  true, ℕ, ◌&&◌, ◌-◌, ◌∷◌, ◌≡◌, ◌⊎◌,
}
use silence_watch.Quotas.{Account}

In-reverse_onto :
    (a : Check) (done cs : List Check) → In a done ⊎ In a cs → In a (reverse_onto done cs)
In-reverse_onto a done [] (inl m) = m
In-reverse_onto a done [] (inr m) = absurd m
In-reverse_onto a done (c ∷ cs) (inl m) = In-reverse_onto a (c ∷ done) cs (inl (inr m))
In-reverse_onto a done (c ∷ cs) (inr (inl e)) = In-reverse_onto a (c ∷ done) cs (inl (inl e))
In-reverse_onto a done (c ∷ cs) (inr (inr m)) = In-reverse_onto a (c ∷ done) cs (inr m)

In-oldest_first : (a : Check) (cs : List Check) → In a cs → In a (oldest_first cs)
In-oldest_first a cs m =
    In-sort_by (λ (c : Check). c.created_at) a (sort_by (λ (c : Check). c.id) cs)
      (In-sort_by (λ (c : Check). c.id) a cs m)

length-newest_first : (cs : List Check) → length (newest_first cs) ≡ length cs
length-newest_first cs = omega (
  arith,
  length-reverse_onto [] (oldest_first cs),
  length-sort_by (λ (c : Check). c.created_at) (sort_by (λ (c : Check). c.id) cs),
  length-sort_by (λ (c : Check). c.id) cs,
)

-- A row that an update selects.
In-update_checks :
    (f : Check → Check) (rows : List Check) (c : Check) (cs : List Check)
    → In c cs
    → In c rows
    → In (f c) (update_checks (ids_of rows) f cs)
In-update_checks f rows c cs m doomed_row =
    let test : mem c.id (ids_of rows) ≡ true =
      mem-In c.id (ids_of rows) (In-map (λ (x : Check). x.id) c rows doomed_row) in
    subst (λ x. In x (update_checks (ids_of rows) f cs)) (rw test refl)
      (In-map (λ (x : Check). if mem x.id (ids_of rows) then f x else x) c cs m)

module _ (now later : ℕ) (db : EnforcerDb) (u : Account) (c : Check) where
  pause_excess-all :
      In c db.checks
      → active db u.id c ≡ true
      → In
          (pause_row now c)
          (pause_excess now u.id (length (filter (active db u.id) db.checks)) db).0.checks
  unfolding pause_excess doomed
  pause_excess-all m h =
      let mine = filter (active db u.id) db.checks in
      let picked =
        In-take_all (length mine) c (newest_first mine) (omega (arith, length-newest_first mine)) (
          In-reverse_onto c [] (oldest_first mine)
            (inr (In-oldest_first c mine (In-filter (active db u.id) c db.checks m h)))) in
      In-update_checks (pause_row now) (take (length mine) (newest_first mine)) c db.checks m picked

  resume-all :
      In c db.checks
      → owned db.members u.id c ≡ true
      → c.paused_reason ≡ some quota
      → In (resume_row later c) (resume later u.id none db).0.checks
  unfolding resume revived
  resume-all m mine why =
      let test = λ (x : Check). owned db.members u.id x && is_quota x.paused_reason in
      let stopped = In-filter test c db.checks m (rw mine (rw why refl)) in
      In-update_checks (resume_row later) (oldest_first (filter test db.checks)) c db.checks m
        (In-oldest_first c (filter test db.checks) stopped)

-- A check that a person paused, in an account whose plan leaves room for no check in one pass, and
-- sets no limit in the next one: it comes back as a new check, and the pause is forgotten.
pub reconcile_owner-forgets_pause :
    (now later : ℕ) (db : EnforcerDb) (u : Account) (r : Reconciled) (c : Check)
    → In c db.checks
    → owned db.members u.id c ≡ true
    → c.state ≡ paused
    → c.paused_reason ≡ none
    → let t = reconcile_owner now (owner_row db u) (some 0) (db, r) in
      In
        (resume_row later (pause_row now c))
        (reconcile_owner later (owner_row t.0 u) none t).0.checks
unfolding reconcile_owner pause_excess
reconcile_owner-forgets_pause now later db u r c m mine stopped why =
    let is_active : active db u.id c ≡ true = rw mine (rw why refl) in
    let all_of = count-owner_row db u.id db.checks in
    let positive =
      length-In c (filter (active db u.id) db.checks)
        (In-filter (active db u.id) c db.checks m is_active) in
    let over : ltb 0 (owner_row db u).active_checks ≡ true = ground arith in
    let exact : (owner_row db u).active_checks - 0 ≡ length (filter (active db u.id) db.checks) =
      omega (arith, all_of) in
    rw over (
      rw exact (
        resume-all now later
          (pause_excess now u.id (length (filter (active db u.id) db.checks)) db).0 u
          (pause_row now c) (pause_excess-all now later db u c m is_active) mine refl))
