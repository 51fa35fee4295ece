-- ===== src/Checks/Deadlines.antt =====
-- The deadline of a check that is edited.
use silence_watch.Checks.Pausing.{find-write_found}
use silence_watch.Checks.{
  CheckUpdate, ChecksDb, ChecksError, change_pause, change_schedule, find_by_id, plain_update,
  to_schedule, update, update_data, write_update,
}
use silence_watch.Tables.{Check, is_none, paused, state_eq}
use silence_watch.Checks.Requests.{UpdateCheckRequest}
use silence_watch.Schedule.{Cron, Schedule, compute_next_due_at}
use silence_watch.Prelude.{
  Bool, Bool-cases, Option, Result, Result-cases, err, false, inl, inr, nat_eq, none, not, ok, refl,
  some, text_keys, true, ℕ, ◌&&◌, ◌||◌, ◌≡◌,
}

abbrev pub is_resumption : Option Bool → Bool
is_resumption (some false) = true
is_resumption _ = false

-- Whether an edit restarts the clock of a check: it names a schedule, or it resumes the check.
abbrev pub restarts : UpdateCheckRequest → Check → Bool
restarts input existing =
    not (is_none input.schedule.schedule_type)
    || is_resumption input.is_paused && state_eq existing.state paused

-- The deadline is the next time of the schedule that the check has now, or it is left alone with
-- the schedule.
abbrev pub IsTimed : Cron → ℕ → Bool → Check → Check → Type 0
IsTimed next now true before after =
    (due : ℕ) × (after.next_due_at ≡ some due)
    × (compute_next_due_at next after.schedule now ≡ ok due)
IsTimed next now false before after =
    (after.next_due_at ≡ before.next_due_at) × (after.schedule ≡ before.schedule)

-- What an edit leaves: it is refused and changes nothing, or it answers the timed row, which is
-- the row of the table.
abbrev pub IsEdited :
    Cron
    → ℕ
    → ℕ
    → UpdateCheckRequest
    → ChecksDb
    → Check
    → ChecksDb
    → Result ChecksError Check
    → Type 0
IsEdited next now check_id input db before after (err e) = after ≡ db
IsEdited next now check_id input db before after (ok c) =
    (find_by_id check_id after.tables.checks ≡ some c)
    × IsTimed next now (restarts input before) before c

module _ (next : Cron) (now : ℕ) (existing : Check) where
  abbrev IsTimedData : Bool → Result ChecksError CheckUpdate → Type 0
  IsTimedData flag (err e) = Unit
  IsTimedData flag (ok columns) = IsTimed next now flag existing (write_update now columns existing)

  pause-schedule_moved :
      (pause : Option Bool) (columns : CheckUpdate) (s : Schedule) (due : ℕ)
      → columns.schedule ≡ some s
      → columns.next_due_at ≡ some due
      → compute_next_due_at next s now ≡ ok due
      → IsTimedData true (change_pause next now existing pause columns)
  unfolding change_pause write_update
  pause-schedule_moved none columns s due a b h = (due, rw b refl, rw a h)
  pause-schedule_moved (some true) columns s due a b h = (due, rw b refl, rw a h)
  pause-schedule_moved (some false) columns s due a b h =
      elim (Bool-cases (state_eq existing.state paused)) [
        | inl stopped ↦ rw stopped (rw a (rw h (due, refl, h)))
        | inr running ↦ rw running (due, rw b refl, rw a h)
      ]

  pause-kept :
      (pause : Option Bool) (columns : CheckUpdate)
      → columns.schedule ≡ none
      → columns.next_due_at ≡ none
      → IsTimedData
          (is_resumption pause && state_eq existing.state paused)
          (change_pause next now existing pause columns)
  unfolding change_pause write_update
  pause-kept none columns a b = (rw b refl, rw a refl)
  pause-kept (some true) columns a b = (rw b refl, rw a refl)
  pause-kept (some false) columns a b = elim (Bool-cases (state_eq existing.state paused)) [
    | inl stopped ↦ elim (Result-cases (compute_next_due_at next existing.schedule now)) [
      | inl (due, h) ↦ rw stopped (rw a (rw h (due, refl, h)))
      | inr (e, h) ↦ rw stopped (rw a (rw h tt))
    ]
    | inr running ↦ rw running (rw b refl, rw a refl)
  ]

  data-IsTimed :
      (input : UpdateCheckRequest)
      → IsTimedData (restarts input existing) (update_data next now existing input)
  unfolding update_data change_schedule
  data-IsTimed input = elim (Bool-cases (is_none input.schedule.schedule_type)) [
    | inl kept ↦ rw kept (pause-kept input.is_paused (plain_update input) refl refl)
    | inr given ↦ elim (Result-cases (compute_next_due_at next (to_schedule input.schedule) now)) [
      | inl (due, h) ↦ rw given (
          rw h (
            pause-schedule_moved input.is_paused
              (record (plain_update input) {
                schedule = some (to_schedule input.schedule);
                next_due_at = some due;
              })
              (to_schedule input.schedule) due refl refl h))
      | inr (e, h) ↦ rw given (rw h tt)
    ]
  ]

-- An edit of a check that there is either is refused, and then nothing has changed, or the row it
-- answers is the one in the table, and its deadline is the next time of its schedule from now on
-- where the request names a schedule or resumes the check, and as before, with the schedule, where
-- it does neither.
pub update-IsEdited :
    (next : Cron) (now check_id : ℕ) (input : UpdateCheckRequest) (db : ChecksDb) (existing : Check)
    → find_by_id check_id db.tables.checks ≡ some existing
    → let t = update next now check_id input db in
      IsEdited next now check_id input db existing t.0 t.1
unfolding update write_update
update-IsEdited next now check_id input db existing found =
    let timed = data-IsTimed next now existing input in
    rw found (elim (Result-cases (update_data next now existing input)) [
      | inr (e, h) ↦ rw h refl
      | inl (columns, h) ↦ rw h (
        find-write_found check_id (write_update now columns) existing db.tables.checks (λ x. refl)
            found,
        (rw h at timed),
      )
    ])
