-- ===== src/Detection/Advance.antt =====
-- One batch of the overdue checks: every row follows the state machine, and a short batch leaves
-- nothing behind.
use silence_watch.Tables.Members.{In-mem}
use silence_watch.Queue.{Locked}
use silence_watch.Prelude.{
  All-of_In, Bool-cases, In, In-of_filter, In-of_map, In-of_sort_by, In-of_take, List, Option, Rows,
  Rows-map_In, ap, arith, false, filter, filter-true, inl, inr, leb, length, length-map, map,
  nat_eq, none, not, refl, some, sort_by, sym, text_keys, true, ℕ, ◌&&◌, ◌∙◌, ◌≡◌, ◌≤◌, ◌⊎◌,
}
use silence_watch.Schedule.{compute_deadline}
use silence_watch.Tables.{Check, CheckState, down, late, mem, new, paused, up}
use silence_watch.Detection.{
  advance, advance_row, due, due_at, due_key, is_active, is_late, moves, next_state, next_state_at,
  selected, transition,
}

-- What the detection loop may do to the state of a check.
infix 40 ◌⟶◌ ◌⟶*◌
pub data ◌⟶◌ : CheckState → CheckState → Type 0 where
  new_late : new ⟶ late
  up_late : up ⟶ late
  new_down : new ⟶ down
  up_down : up ⟶ down
  late_down : late ⟶ down

pub data ◌⟶*◌ : CheckState → CheckState → Type 0 where
  stay : {s : CheckState} → s ⟶* s
  step : {s t u : CheckState} → s ⟶ t → t ⟶* u → s ⟶* u

abbrev pub UniqueIds : List Check → Type 0
UniqueIds cs = (a b : Check) → In a cs → In b cs → a.id ≡ b.id → a ≡ b

-- The deadline and the grace period are over.
abbrev pub IsOver : ℕ → ℕ → Option ℕ → Type 0
IsOver now grace none = ⊥
IsOver now grace (some t) = compute_deadline t grace ≤ now

-- One row before and after a batch.
pub record Advances (now : ℕ) (c c' : Check) : Type 0 where
  pub same : c' ≡ record c { state = c'.state; updated_at = c'.updated_at }
  pub moved :
      (c' ≡ c)
      ⊎ ((c.state ⟶ c'.state)
          × (c'.state ≡ down → IsOver now c.grace_seconds c.next_due_at)
          × (IsOver now c.grace_seconds c.next_due_at → c'.state ≡ down))

pub due-moves : (now : ℕ) (c : Check) → due now c ≡ true → moves now c ≡ true
unfolding due moves next_state
due-moves now c h = ground arith

active-down : (s : CheckState) → is_active s ≡ true → s ⟶ down
active-down new h = new_down
active-down up h = up_down
active-down late h = late_down
active-down down h = cc
active-down paused h = cc

fresh-late : (s : CheckState) → is_active s ≡ true → is_late s ≡ false → s ⟶ late
fresh-late new h k = new_late
fresh-late up h k = up_late
fresh-late late h k = cc
fresh-late down h k = cc
fresh-late paused h k = cc

due-⟶ :
    (now : ℕ) (s : CheckState) (grace : ℕ) (t : Option ℕ)
    → due_at now s grace t ≡ true
    → (s ⟶ next_state_at now grace t)
      × (next_state_at now grace t ≡ down → IsOver now grace t)
      × (IsOver now grace t → next_state_at now grace t ≡ down)
unfolding due_at next_state_at
due-⟶ now s grace none h = cc
due-⟶ now s grace (some t) h = elim (Bool-cases (leb (compute_deadline t grace) now)) [
  | inl e ↦ rw e (active-down s (ground arith), λ _. ground arith, λ _. refl)
  | inr e ↦ rw e (fresh-late s (ground arith) (ground arith), λ x. cc, λ o. ground arith)
]

pub In-selected :
    (limit now : ℕ) (locked : Locked) (cs : List Check) (c : Check)
    → In c (selected limit now locked cs)
    → In c cs × (due now c ≡ true) × (locked c.id ≡ false)
unfolding selected
In-selected limit now locked cs c m =
    let free = λ (x : Check). not (locked x.id) in
    let sorted = sort_by due_key (filter (due now) cs) in
    let (k, unlocked) = In-of_filter free c sorted (In-of_take limit c (filter free sorted) m) in
    let (h, overdue) =
      In-of_filter (due now) c cs (In-of_sort_by due_key c (filter (due now) cs) k) in
    (h, overdue, ground arith)

-- The ids of the rows that a batch selects.
abbrev pub chosen : ℕ → ℕ → Locked → List Check → List ℕ
chosen limit now locked cs = map (λ (x : Check). x.id) (selected limit now locked cs)

pub chosen-due :
    (limit now : ℕ) (locked : Locked) (cs : List Check)
    → UniqueIds cs
    → (c : Check) → In c cs
    → mem c.id (chosen limit now locked cs) ≡ true
    → due now c ≡ true
chosen-due limit now locked cs unique c m e =
    let (x, n, same) =
      In-of_map (λ (x : Check). x.id) c.id (selected limit now locked cs) (In-mem c.id _ e) in
    let (k, overdue, free) = In-selected limit now locked cs x n in
    ap (due now) (sym (unique x c k m same)) ∙ overdue

due-Advances :
    (now : ℕ) (c : Check)
    → due now c ≡ true
    → Advances now c (record c { state = next_state now c; updated_at = now })
unfolding due next_state
due-Advances now c h = record {
  same = refl;
  moved = inr (due-⟶ now c.state c.grace_seconds c.next_due_at h);
}

-- What one batch does to one row.
advance_row-Advances :
    (limit now : ℕ) (locked : Locked) (cs : List Check)
    → UniqueIds cs
    → (c : Check) → In c cs
    → Advances now c (advance_row now (chosen limit now locked cs) c)
unfolding advance_row
advance_row-Advances limit now locked cs unique c m =
    elim (Bool-cases (mem c.id (chosen limit now locked cs) && moves now c)) [
      | inl e ↦ rw e (due-Advances now c (chosen-due limit now locked cs unique c m (ground arith)))
      | inr e ↦ rw e record { same = refl; moved = inl refl }
    ]

-- A batch keeps the rows of the table and their order; a row that it changes moves along an edge
-- of the state machine, to DOWN if and only if its deadline and its grace period are over, and
-- keeps all its columns but the state and the time of the update.
pub advance-Advances :
    (limit now : ℕ) (locked : Locked) (cs : List Check)
    → UniqueIds cs
    → Rows (Advances now) cs (advance limit now locked cs).0
unfolding advance
advance-Advances limit now locked cs unique =
    Rows-map_In (Advances now) (advance_row now (chosen limit now locked cs)) cs
      (advance_row-Advances limit now locked cs unique)

-- Every row that is selected changes its state, so the statement returns as many rows as it
-- selected.
pub length-advance :
    (limit now : ℕ) (locked : Locked) (cs : List Check)
    → length (advance limit now locked cs).1 ≡ length (selected limit now locked cs)
unfolding advance
length-advance limit now locked cs =
    let sel = selected limit now locked cs in
    length-map (filter (moves now) sel) (transition now)
    ∙ ap length (
        filter-true (moves now) sel
          (All-of_In sel (λ c m. due-moves now c ((In-selected limit now locked cs c m).1))))
