-- ===== src/Detection/Course.antt =====
-- `advanceOverdueChecks`: the course of each check over the batches of a pass.
use silence_watch.Queue.{Locked}
use silence_watch.Prelude.{
  Bool-cases, In-of_map, List, Rows, Rows-map, Rows-refl, Rows-trans, ap, arith, inl, inr, length,
  ltb, nat_eq, refl, subst, suc, sym, text_keys, zero, ℕ, ◌+◌, ◌∙◌, ◌≡◌,
}
use silence_watch.Tables.{Check, CheckState}
use silence_watch.Detection.{
  Detector, Pass, advance, advance_batches, advance_overdue_checks, advance_row, max_batches, tally,
}
use silence_watch.Detection.Advance.{
  Advances, UniqueIds, advance-Advances, chosen, stay, step, ◌⟶*◌,
}

-- A row before and after any number of batches.
abbrev pub Follows : Check → Check → Type 0
Follows c c' =
    (c' ≡ record c { state = c'.state; updated_at = c'.updated_at }) × (c.state ⟶* c'.state)

append-⟶* : {s t u : CheckState} → s ⟶* t → t ⟶* u → s ⟶* u
append-⟶* stay k = k
append-⟶* (step e h) k = step e (append-⟶* h k)

Follows-refl : (c : Check) → Follows c c
Follows-refl c = (refl, stay)

Follows-trans : (a b c : Check) → Follows a b → Follows b c → Follows a c
Follows-trans a b c (p, h) (q, k) = (
  q ∙ ap {A = Check} (λ x. record x { state = c.state; updated_at = c.updated_at }) p,
  append-⟶* h k,
)

Advances-Follows : (now : ℕ) (c c' : Check) → Advances now c c' → Follows c c'
Advances-Follows now c c' h = (
  h.same,
  elim h.moved as (λ _. c.state ⟶* c'.state) [
    | inl e ↦ subst (λ x. c.state ⟶* x.state) (sym e) stay
    | inr m ↦ step m.0 stay
  ],
)

advance_row-id : (now : ℕ) (ids : List ℕ) (c : Check) → (advance_row now ids c).id ≡ c.id
unfolding advance_row
advance_row-id now ids c = ground arith

pub advance-UniqueIds :
    (limit now : ℕ) (locked : Locked) (cs : List Check)
    → UniqueIds cs
    → UniqueIds (advance limit now locked cs).0
unfolding advance
advance-UniqueIds limit now locked cs unique a b m n same =
    let ids = chosen limit now locked cs in
    let (x, k, p) = In-of_map (advance_row now ids) a cs m in
    let (y, l, q) = In-of_map (advance_row now ids) b cs n in
    let equal =
      sym (advance_row-id now ids x)
      ∙ ap (λ (c : Check). c.id) p
      ∙ same
      ∙ sym (ap (λ (c : Check). c.id) q)
      ∙ advance_row-id now ids y in
    sym p ∙ ap (advance_row now ids) (unique x y k l equal) ∙ q

advance-Follows :
    (limit now : ℕ) (locked : Locked) (cs : List Check)
    → UniqueIds cs
    → Rows Follows cs (advance limit now locked cs).0
advance-Follows limit now locked cs unique =
    Rows-map (Advances-Follows now) cs (advance limit now locked cs).0
      (advance-Advances limit now locked cs unique)

advance_batches-Follows :
    (left : ℕ) (pass : Pass) (size batch : ℕ) (d : Detector) (cs : List Check)
    → UniqueIds cs
    → Rows Follows cs (advance_batches left pass size batch (d, cs)).1
      × UniqueIds (advance_batches left pass size batch (d, cs)).1
unfolding advance_batches
advance_batches-Follows zero pass size batch d cs unique =
    (Rows-refl Follows Follows-refl cs, unique)
advance_batches-Follows (suc left) pass size batch d cs unique =
    let now = pass.advance_at batch in
    let locked = pass.advance_locked batch in
    let after = advance size now locked cs in
    let one = advance-Follows size now locked cs unique in
    let kept = advance-UniqueIds size now locked cs unique in
    elim (Bool-cases (ltb (length after.1) size)) [
      | inl short ↦ rw short (one, kept)
      | inr full ↦
          let (more, ids) =
            advance_batches-Follows left pass size (batch + 1) (tally d after.1) after.0 kept in
          rw full (Rows-trans Follows Follows-trans cs after.0 _ one more, ids)
    ]

-- Whatever the instants of the batches and the rows that others hold, a pass keeps the checks, their
-- order and their columns but the state and the time of the update, each state follows edges of the
-- state machine, and the ids stay unique.
pub advance_overdue_checks-Follows :
    (pass : Pass) (size : ℕ) (d : Detector) (cs : List Check)
    → UniqueIds cs
    → Rows Follows cs (advance_overdue_checks pass size (d, cs)).1
      × UniqueIds (advance_overdue_checks pass size (d, cs)).1
unfolding advance_overdue_checks
advance_overdue_checks-Follows pass size d cs = advance_batches-Follows max_batches pass size 0 d cs
