-- ===== src/Sync/Laws.antt =====
-- A restart of a client, which declares its jobs again.
use silence_watch.Prelude.{
  Bool-cases, In, In-any, In-map, In-of_append_one, In-of_map, List, Option, Rows, Rows-map_In,
  Text, any, any-In, any-append_one, ap, arith, false, if◌then◌else◌, inl, inr, map, nat_eq, none,
  refl, some, subst, sym, text_eq_refl, text_keys, true, ℕ, ◌∙◌, ◌≡◌,
}
use silence_watch.Prelude.Int.{negsuc, pos, ℤ}
use silence_watch.Schedule.{Schedule, ScheduleType, cron, interval}
use silence_watch.Tables.{Check}
use silence_watch.Sync.{
  SyncRow, new_declared, or_empty, period_eq, same_check, same_schedule, text_option_eq, type_eq,
  update_declared, upsert_row,
}

period_eq_refl : (p : Option ℤ) → period_eq p p ≡ true
period_eq_refl none = refl
period_eq_refl (some (pos n)) = ground arith
period_eq_refl (some (negsuc n)) = ground arith

text_option_eq_refl : (o : Option Text) → text_option_eq o o ≡ true
text_option_eq_refl none = refl
text_option_eq_refl (some s) = text_eq_refl s

type_eq_refl : (t : ScheduleType) → type_eq t t ≡ true
type_eq_refl interval = refl
type_eq_refl cron = refl

same_schedule_refl : (s : Schedule) → same_schedule s s ≡ true
unfolding same_schedule
same_schedule_refl s = rw (type_eq_refl s.schedule_type) (
    rw (period_eq_refl s.period_seconds)
      (rw (text_option_eq_refl s.cron_expression) (text_eq_refl s.timezone)))

-- What an upsert may not move: the deadline, the state and the ping key of a check.
abbrev pub IsSteady : Check → Check → Type 0
IsSteady c c' =
    (c'.id ≡ c.id)
    × (c'.next_due_at ≡ c.next_due_at)
    × (c'.state ≡ c.state)
    × (c'.ping_key ≡ c.ping_key)

update_declared-IsSteady :
    (now : ℕ) (row : SyncRow) (c : Check)
    → c.schedule ≡ row.schedule
    → IsSteady c (update_declared now row c)
unfolding update_declared
update_declared-IsSteady now row c e =
    let same : same_schedule c.schedule row.schedule ≡ true =
      ap (same_schedule c.schedule) (sym e) ∙ same_schedule_refl c.schedule in
    (refl, rw same refl, refl, refl)

module _ (ping_key_of : ℕ → Text) (project : ℕ) (environment : Option Text) where
  update_declared-same :
      (now : ℕ) (row : SyncRow) (key : Text) (c : Check)
      → same_check project environment key (update_declared now row c)
        ≡ same_check project environment key c
  unfolding same_check update_declared
  update_declared-same now row key c = refl

  new_declared-same :
      (now id : ℕ) (row : SyncRow)
      → same_check project environment row.key
          (new_declared ping_key_of now id project environment row)
        ≡ true
  unfolding same_check new_declared
  new_declared-same now id row =
      ground (arith, text_eq_refl row.key, text_eq_refl (or_empty environment))

  abbrev updated : ℕ → SyncRow → Check → Check
  updated now row c =
      if same_check project environment row.key c then update_declared now row c else c

  -- After an upsert, the check of the row has the schedule of the row.
  updated-schedule :
      (now : ℕ) (row : SyncRow) (c : Check)
      → same_check project environment row.key (updated now row c) ≡ true
      → (updated now row c).schedule ≡ row.schedule
  unfolding update_declared
  updated-schedule now row c h = elim (Bool-cases (same_check project environment row.key c)) [
    | inl mine ↦ rw mine refl
    | inr other ↦ let clash : false ≡ true = sym other ∙ (rw other at h) in cc
  ]

  updated-same :
      (now : ℕ) (row : SyncRow) (c : Check)
      → same_check project environment row.key c ≡ true
      → same_check project environment row.key (updated now row c) ≡ true
  updated-same now row c mine = rw mine (update_declared-same now row row.key c ∙ mine)

  upserted-schedule :
      (now : ℕ) (row : SyncRow) (cs : List Check) (n : ℕ) (c : Check)
      → In c (upsert_row ping_key_of now project environment row (cs, n)).0
      → same_check project environment row.key c ≡ true
      → c.schedule ≡ row.schedule
  unfolding upsert_row new_declared
  upserted-schedule now row cs n c m h =
      elim (Bool-cases (any (same_check project environment row.key) cs)) [
        | inl known ↦
            let (x, k, e) = In-of_map (updated now row) c cs (rw known at m) in
            subst (λ y. y.schedule ≡ row.schedule) e
              (updated-schedule now row x
                (subst (λ y. same_check project environment row.key y ≡ true) (sym e) h))
        | inr fresh ↦
            let test = same_check project environment row.key in
            let added = new_declared ping_key_of now n project environment row in
            elim (In-of_append_one c added cs (rw fresh at m)) [
              | inl old ↦ let clash : true ≡ false = sym (In-any test c cs old h) ∙ fresh in cc
              | inr e ↦ ap (λ (y : Check). y.schedule) (sym e)
            ]
      ]

  upserted-any :
      (now : ℕ) (row : SyncRow) (cs : List Check) (n : ℕ)
      → any
          (same_check project environment row.key)
          (upsert_row ping_key_of now project environment row (cs, n)).0
        ≡ true
  unfolding upsert_row
  upserted-any now row cs n =
      let test = same_check project environment row.key in
      elim (Bool-cases (any test cs)) [
        | inl known ↦
            let (x, m, mine) = any-In test cs known in
            rw known (
              In-any test (updated now row x) (map (updated now row) cs)
                (In-map (updated now row) x cs m) (updated-same now row x mine))
        | inr fresh ↦
            let added = new_declared ping_key_of now n project environment row in
            rw fresh (any-append_one test cs added ∙ ground (arith, new_declared-same now n row))
      ]

  upsert_known-IsSteady :
      (later : ℕ) (row : SyncRow) (cs : List Check) (n : ℕ)
      → any (same_check project environment row.key) cs ≡ true
      → ((c : Check)
          → In c cs
          → same_check project environment row.key c ≡ true
          → c.schedule ≡ row.schedule)
      → Rows IsSteady cs (upsert_row ping_key_of later project environment row (cs, n)).0
  unfolding upsert_row
  upsert_known-IsSteady later row cs n known synced = rw known (
      Rows-map_In IsSteady (updated later row) cs (λ c m.
        elim (Bool-cases (same_check project environment row.key c)) [
          | inl mine ↦ rw mine (update_declared-IsSteady later row c (synced c m mine))
          | inr other ↦ rw other (refl, refl, refl, refl)
        ]))

  -- A client that declares a job again, with the same schedule, moves no deadline, no state and no
  -- ping key of any check: a restart grants no fresh grace.
  pub upsert_row-IsSteady :
      (now later : ℕ) (row again : SyncRow) (cs : List Check) (n : ℕ)
      → again.key ≡ row.key
      → again.schedule ≡ row.schedule
      → let t = upsert_row ping_key_of now project environment row (cs, n) in
        Rows IsSteady t.0 (upsert_row ping_key_of later project environment again t).0
  upsert_row-IsSteady now later row again cs n same_key same_plan =
      let t = upsert_row ping_key_of now project environment row (cs, n) in
      upsert_known-IsSteady later again t.0 t.1
        (subst (λ k. any (same_check project environment k) t.0 ≡ true) (sym same_key)
          (upserted-any now row cs n))
        (λ c m mine.
          upserted-schedule now row cs n c m
            (subst (λ k. same_check project environment k c ≡ true) same_key mine)
          ∙ sym same_plan)
