-- ===== src/Retention/Batches.antt =====
-- What one statement of a purge deletes.
use silence_watch.Retention.{purge_batch}
use silence_watch.Tables.{mem}
use silence_watch.Tables.Members.{IsKeyed}
use silence_watch.Prelude.{
  Bool, Bool-cases, List, [], ap, arith, false, filter, if◌then◌else◌, inl, inr, length, map, min,
  nat_eq, not, refl, subst, suc, sym, take, text_keys, zero, ℕ, ◌+◌, ◌-◌, ◌∙◌, ◌∷◌, ◌≡◌,
}

module _ {A : Type 0} (id_of : A → ℕ) (dead : A → Bool) where
  abbrev doomed_ids : ℕ → List A → List ℕ
  doomed_ids limit xs = map id_of (take limit (filter dead xs))

  abbrev kept : List ℕ → List A → List A
  kept ids = filter (λ x. not (mem (id_of x) ids))

  ids-apart :
      (i limit : ℕ) (xs : List A)
      → mem i (map id_of xs) ≡ false
      → mem i (doomed_ids limit xs) ≡ false
  ids-apart i zero xs h = refl
  ids-apart i (suc limit) [] h = refl
  ids-apart i (suc limit) (x ∷ xs) h =
      ground (arith, ids-apart i limit xs, ids-apart i (suc limit) xs)

  -- The rows of a statement, by position.
  drop_dead : ℕ → List A → List A
  drop_dead zero xs = xs
  drop_dead (suc limit) [] = []
  drop_dead (suc limit) (x ∷ xs) =
      let skipped = drop_dead limit xs in
      let rest = drop_dead (suc limit) xs in if dead x then skipped else x ∷ rest

  kept-none : (xs : List A) → kept [] xs ≡ xs
  kept-none [] = refl
  kept-none (x ∷ xs) = ap (λ ys. x ∷ ys) (kept-none xs)

  kept-apart :
      (i : ℕ) (ids : List ℕ) (xs : List A)
      → mem i (map id_of xs) ≡ false
      → kept (i ∷ ids) xs ≡ kept ids xs
  kept-apart i ids [] h = refl
  kept-apart i ids (x ∷ xs) h = ground (arith, kept-apart i ids xs)

  kept-head :
      (ids : List ℕ) (x : A) (xs : List A) → kept (id_of x ∷ ids) (x ∷ xs) ≡ kept (id_of x ∷ ids) xs
  kept-head ids x xs = ground arith

  kept-live :
      (ids : List ℕ) (x : A) (xs : List A)
      → mem (id_of x) ids ≡ false
      → kept ids (x ∷ xs) ≡ x ∷ kept ids xs
  kept-live ids x xs h = rw h refl

  -- A statement deletes the first rows that are dead.
  kept-drop_dead :
      (limit : ℕ) (xs : List A)
      → IsKeyed id_of xs
      → kept (doomed_ids limit xs) xs ≡ drop_dead limit xs
  unfolding drop_dead
  kept-drop_dead zero xs h = kept-none xs
  kept-drop_dead (suc limit) [] h = refl
  kept-drop_dead (suc limit) (x ∷ xs) (alone, h) = elim (Bool-cases (dead x)) [
    | inl old ↦
        let ids = doomed_ids limit xs in
        let found : doomed_ids (suc limit) (x ∷ xs) ≡ id_of x ∷ ids = rw old refl in
        ap (λ is. kept is (x ∷ xs)) found
        ∙ kept-head ids x xs
        ∙ kept-apart (id_of x) ids xs alone
        ∙ kept-drop_dead limit xs h
        ∙ rw old refl
    | inr live ↦
        let ids = doomed_ids (suc limit) xs in
        let found : doomed_ids (suc limit) (x ∷ xs) ≡ ids = rw live refl in
        ap (λ is. kept is (x ∷ xs)) found
        ∙ kept-live ids x xs (ids-apart (id_of x) (suc limit) xs alone)
        ∙ ap (λ ys. x ∷ ys) (kept-drop_dead (suc limit) xs h)
        ∙ rw live refl
  ]

  pub count-both :
      (p : A → Bool) (xs : List A)
      → length (filter p xs) + length (filter (λ x. not (p x)) xs) ≡ length xs
  count-both p [] = omega arith
  count-both p (x ∷ xs) = ground (arith, count-both p xs)

  length-drop_dead :
      (limit : ℕ) (xs : List A)
      → length (drop_dead limit xs) + min limit (length (filter dead xs)) ≡ length xs
  unfolding drop_dead
  length-drop_dead zero xs = omega arith
  length-drop_dead (suc limit) [] = omega arith
  length-drop_dead (suc limit) (x ∷ xs) =
      ground (arith, length-drop_dead limit xs, length-drop_dead (suc limit) xs)

  dead-drop_dead :
      (limit : ℕ) (xs : List A)
      → length (filter dead (drop_dead limit xs)) ≡ length (filter dead xs) - limit
  unfolding drop_dead
  dead-drop_dead zero xs = omega arith
  dead-drop_dead (suc limit) [] = omega arith
  dead-drop_dead (suc limit) (x ∷ xs) =
      ground (arith, dead-drop_dead limit xs, dead-drop_dead (suc limit) xs)

  live-drop_dead :
      (limit : ℕ) (xs : List A)
      → filter (λ x. not (dead x)) (drop_dead limit xs) ≡ filter (λ x. not (dead x)) xs
  unfolding drop_dead
  live-drop_dead zero xs = refl
  live-drop_dead (suc limit) [] = refl
  live-drop_dead (suc limit) (x ∷ xs) =
      ground (arith, live-drop_dead limit xs, live-drop_dead (suc limit) xs)

  ids-drop_dead :
      (i limit : ℕ) (xs : List A)
      → mem i (map id_of xs) ≡ false
      → mem i (map id_of (drop_dead limit xs)) ≡ false
  unfolding drop_dead
  ids-drop_dead i zero xs h = h
  ids-drop_dead i (suc limit) [] h = refl
  ids-drop_dead i (suc limit) (x ∷ xs) h =
      ground (arith, ids-drop_dead i limit xs, ids-drop_dead i (suc limit) xs)

  drop_dead-IsKeyed :
      (limit : ℕ) (xs : List A) → IsKeyed id_of xs → IsKeyed id_of (drop_dead limit xs)
  unfolding drop_dead
  drop_dead-IsKeyed zero xs h = h
  drop_dead-IsKeyed (suc limit) [] h = tt
  drop_dead-IsKeyed (suc limit) (x ∷ xs) (alone, h) = elim (Bool-cases (dead x)) [
    | inl old ↦ rw old (drop_dead-IsKeyed limit xs h)
    | inr live ↦
        rw live (ids-drop_dead (id_of x) (suc limit) xs alone, drop_dead-IsKeyed (suc limit) xs h)
  ]

  -- What the rows and the count of a purge say of the rows before it.
  abbrev pub IsPurged : ℕ → List A → List A × ℕ → Type 0
  IsPurged capacity rows (after, count) =
      (filter (λ x. not (dead x)) after ≡ filter (λ x. not (dead x)) rows)
      × (length (filter dead after) ≡ length (filter dead rows) - capacity)
      × (count + length after ≡ length rows)

  pub batch-IsPurged :
      (limit : ℕ) (rows : List A)
      → IsKeyed id_of rows
      → IsPurged limit rows (purge_batch id_of dead limit rows)
        × IsKeyed id_of (purge_batch id_of dead limit rows).0
        × ((purge_batch id_of dead limit rows).1 ≡ min limit (length (filter dead rows)))
  unfolding purge_batch
  batch-IsPurged limit rows h =
      let e = kept-drop_dead limit rows h in
      let both = count-both (λ x. mem (id_of x) (doomed_ids limit rows)) rows in
      (
        (
          ap (filter (λ x. not (dead x))) e ∙ live-drop_dead limit rows,
          ap (λ ys. length (filter dead ys)) e ∙ dead-drop_dead limit rows,
          both,
        ),
        subst (IsKeyed id_of) (sym e) (drop_dead-IsKeyed limit rows h),
        omega (arith, both, ap length e, length-drop_dead limit rows),
      )
