-- ===== src/Detection/Backlog.antt =====
-- `advanceOverdueChecks`: how its batches clear a backlog.
use silence_watch.Tables.Members.{mem-In}
use silence_watch.Detection.Advance.{In-selected, chosen, due-moves, length-advance}
use silence_watch.Queue.{Locked}
use silence_watch.Prelude.{
  All-of_In, Bool-cases, In-map, List, Option, ap, arith, count-filter, count-map, count-sort_by,
  count-split, count-take, false, filter, filter-true, inl, inr, length, length-sort_by, ltb,
  nat_eq, none, not, refl, some, sort_by, suc, take, take-short, text_keys, true, zero, ℕ, ◌&&◌,
  ◌*◌, ◌+◌, ◌<◌, ◌∙◌, ◌≡◌, ◌≤◌,
}
use silence_watch.Tables.{Check, mem}
use silence_watch.Detection.{
  Detector, Pass, advance, advance_batches, advance_overdue_checks, advance_row, due, due_at,
  due_key, max_batches, moves, next_state, next_state_at, selected, tally,
}

-- A row that the statement has moved is no longer due at that instant.
moved-settles :
    (now : ℕ) (c : Check) (at : ℕ)
    → due now (record c { state = next_state now c; updated_at = at }) ≡ false
unfolding due due_at next_state next_state_at
moved-settles now c at = settles c.next_due_at
  where
    settles :
        (t : Option ℕ) → due_at now (next_state_at now c.grace_seconds t) c.grace_seconds t ≡ false
    settles none = refl
    settles (some t) = ground arith

-- A row that is due after the batch was due before it, and was not selected.
due-advance_row :
    (now : ℕ) (ids : List ℕ) (c : Check)
    → due now (advance_row now ids c) ≡ true
    → (due now c ≡ true) × (mem c.id ids ≡ false)
unfolding advance_row
due-advance_row now ids c h = elim (Bool-cases (mem c.id ids && moves now c)) [
  | inl e ↦ absurd (ground (arith, moved-settles now c now))
  | inr e ↦ (rw e at h, ground (arith, due-moves now c (rw e at h)))
]

-- The checks that are due.
abbrev pub backlog : ℕ → List Check → ℕ
backlog now cs = length (filter (due now) cs)

-- The rows selected are among those that are due and have one of the ids.
selected-count :
    (limit now : ℕ) (locked : Locked) (cs : List Check)
    → length (selected limit now locked cs)
      ≤ length (filter (λ c. due now c && mem c.id (chosen limit now locked cs)) cs)
unfolding selected
selected-count limit now locked cs =
    let ids = chosen limit now locked cs in
    let p = λ (c : Check). due now c && mem c.id ids in
    let free = λ (c : Check). not (locked c.id) in
    let sorted = sort_by due_key (filter (due now) cs) in
    let sel = take limit (filter free sorted) in
    let all_p = filter-true p sel (
      All-of_In sel (λ c m.
        let (k, overdue, f) = In-selected limit now locked cs c m in
        ground (arith, mem-In c.id ids (In-map (λ (x : Check). x.id) c sel m)))) in
    omega (
      arith,
      ap length all_p,
      count-take p limit (filter free sorted),
      count-filter p free sorted,
      count-sort_by due_key p (filter (due now) cs),
      count-filter p (due now) cs,
    )

backlog-advance :
    (limit now : ℕ) (locked : Locked) (cs : List Check)
    → length (selected limit now locked cs) + backlog now (advance limit now locked cs).0
      ≤ backlog now cs
unfolding advance
backlog-advance limit now locked cs =
    let ids = chosen limit now locked cs in
    let sel = selected limit now locked cs in
    let taken = λ (c : Check). mem c.id ids in
    omega (
      arith,
      count-split (due now) taken cs,
      count-map (due now) (λ c. due now c && not (taken c)) (advance_row now ids) cs
          (λ c h. let (a, b) = due-advance_row now ids c h in ground arith),
      selected-count limit now locked cs,
    )

-- A selection that is not full, while no row is locked, is the whole backlog.
selected-short :
    (limit now : ℕ) (locked : Locked) (cs : List Check)
    → ((i : ℕ) → locked i ≡ false)
    → length (selected limit now locked cs) < limit
    → length (selected limit now locked cs) ≡ backlog now cs
unfolding selected
selected-short limit now locked cs unlocked short =
    let free = λ (c : Check). not (locked c.id) in
    let sorted = sort_by due_key (filter (due now) cs) in
    ap length (take-short limit (filter free sorted) short)
    ∙ ap length (filter-true free sorted (All-of_In sorted (λ c m. ap not (unlocked c.id))))
    ∙ length-sort_by due_key (filter (due now) cs)

advance_batches-backlog :
    (left : ℕ) (pass : Pass) (now size batch : ℕ) (d : Detector) (cs : List Check)
    → ((i : ℕ) → pass.advance_at i ≡ now)
    → ((i j : ℕ) → pass.advance_locked i j ≡ false)
    → backlog now cs ≤ left * size
    → backlog now (advance_batches left pass size batch (d, cs)).1 ≡ 0
unfolding advance_batches
advance_batches-backlog zero pass now size batch d cs clock unlocked fits = omega arith
advance_batches-backlog (suc left) pass now size batch d cs clock unlocked fits =
    let locked = pass.advance_locked batch in
    let after = advance size now locked cs in
    let fewer = backlog-advance size now locked cs in
    let returned = length-advance size now locked cs in
    rw (clock batch) (elim (Bool-cases (ltb (length after.1) size)) [
      | inl short ↦
          rw short
            (omega (arith, selected-short size now locked cs (unlocked batch) (ground arith)))
      | inr full ↦ rw full (
          advance_batches-backlog left pass now size (batch + 1) (tally d after.1) after.0 clock
            unlocked (ground arith))
    ])

-- With one instant for all the batches and no row locked, the loop leaves no check due, if 25
-- batches have room for those that were due.
pub advance_overdue_checks-backlog :
    (pass : Pass) (now size : ℕ) (d : Detector) (cs : List Check)
    → ((i : ℕ) → pass.advance_at i ≡ now)
    → ((i j : ℕ) → pass.advance_locked i j ≡ false)
    → backlog now cs ≤ max_batches * size
    → backlog now (advance_overdue_checks pass size (d, cs)).1 ≡ 0
unfolding advance_overdue_checks
advance_overdue_checks-backlog pass now size d cs =
    advance_batches-backlog max_batches pass now size 0 d cs
