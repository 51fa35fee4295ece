-- ===== src/Retention/Loops.antt =====
-- What the loop of statements deletes.
use silence_watch.Prelude.{
  Bool, Bool-cases, In, In-filter, In-of_filter, List, [], ap, arith, count-none, false, filter,
  inl, inr, length, length-In, ltb, ltb→lt, nat_eq, not, refl, subst, suc, sym, text_keys, true,
  zero, ℕ, ◌*◌, ◌+◌, ◌∙◌, ◌∷◌, ◌≡◌, ◌≤◌,
}
use silence_watch.Tables.Members.{IsKeyed}
use silence_watch.Retention.{purge_batch, purge_batches}
use silence_watch.Retention.Batches.{batch-IsPurged, count-both}

filter-within :
    {A : Type 0} (p q : A → Bool) (xs : List A)
    → ((a : A) → p a ≡ true → q a ≡ true)
    → filter p (filter q xs) ≡ filter p xs
filter-within p q [] h = refl
filter-within p q (x ∷ xs) h = elim (Bool-cases (q x)) [
  | inl kept ↦
      let rest = filter-within p q xs h in
      elim (Bool-cases (p x)) [
        | inl both ↦ rw kept (rw both (ap (λ ys. x ∷ ys) rest))
        | inr one ↦ rw kept (rw one rest)
      ]
  | inr dropped ↦ elim (Bool-cases (p x)) [
    | inl clash ↦ let e = sym (h x clash) ∙ dropped in absurd cc
    | inr gone ↦ rw dropped (rw gone (filter-within p q xs h))
  ]
]

module _ {A : Type 0} (id_of : A → ℕ) (dead : ℕ → A → Bool) (limit : ℕ) where
  -- The count of the loop is the number of the rows that it deletes.
  pub purge_batches-count :
      (left batch : ℕ) (rows : List A)
      → IsKeyed id_of rows
      → let (after, count) = purge_batches id_of dead limit left batch rows in
        count + length after ≡ length rows
  unfolding purge_batches
  purge_batches-count zero batch rows keyed = omega arith
  purge_batches-count (suc left) batch rows keyed =
      let once = purge_batch id_of (dead batch) limit rows in
      let ((live, old, sum), still, count) = batch-IsPurged id_of (dead batch) limit rows keyed in
      let rest = purge_batches-count left (batch + 1) once.0 still in
      elim (Bool-cases (ltb once.1 limit)) [
        | inl last ↦ rw last sum
        | inr more ↦ rw more (omega (arith, sum, rest))
      ]

  -- A row that no statement is to delete is left.
  pub live-kept :
      (left batch : ℕ) (rows : List A) (a : A)
      → IsKeyed id_of rows
      → In a rows
      → ((n : ℕ) → dead n a ≡ false)
      → In a (purge_batches id_of dead limit left batch rows).0
  unfolding purge_batches
  live-kept zero batch rows a keyed m h = m
  live-kept (suc left) batch rows a keyed m h =
      let once = purge_batch id_of (dead batch) limit rows in
      let ((live, old, sum), still, count) = batch-IsPurged id_of (dead batch) limit rows keyed in
      let test = λ (x : A). not (dead batch x) in
      let kept : In a once.0 =
        (In-of_filter test a once.0
          (subst (In a) (sym live) (In-filter test a rows m (rw (h batch) refl)))).0 in
      elim (Bool-cases (ltb once.1 limit)) [
        | inl last ↦ rw last kept
        | inr more ↦ rw more (live-kept left (batch + 1) once.0 a still kept h)
      ]

  module _ (sure possible : A → Bool) (always : (n : ℕ) (a : A) → sure a ≡ true → dead n a ≡ true)
      (sometimes : (n : ℕ) (a : A) → dead n a ≡ true → possible a ≡ true) where
    never-sure : (n : ℕ) (a : A) → dead n a ≡ false → sure a ≡ false
    never-sure n a h = elim (Bool-cases (sure a)) [
      | inr e ↦ e
      | inl e ↦ let clash = sym (always n a e) ∙ h in absurd cc
    ]

    -- A full batch takes as many rows from those that a statement may delete.
    possible-batch :
        (batch : ℕ) (rows : List A)
        → IsKeyed id_of rows
        → let once = purge_batch id_of (dead batch) limit rows in
          length (filter possible once.0) + once.1 ≡ length (filter possible rows)
    possible-batch batch rows keyed =
        let once = purge_batch id_of (dead batch) limit rows in
        let ((live, old, sum), still, count) = batch-IsPurged id_of (dead batch) limit rows keyed in
        let safe = λ (x : A). not (possible x) in
        let test = λ (x : A). not (dead batch x) in
        let within : (a : A) → safe a ≡ true → test a ≡ true = λ a h.
          elim (Bool-cases (dead batch a)) [
            | inl e ↦ let p = sometimes batch a e in absurd (ground arith)
            | inr e ↦ rw e refl
          ] in
        let same =
          sym (filter-within safe test once.0 within)
          ∙ ap (filter safe) live
          ∙ filter-within safe test rows within in
        omega (
          arith,
          sum,
          ap length same,
          count-both id_of (dead batch) possible once.0,
          count-both id_of (dead batch) possible rows,
        )

    -- A loop with statements enough for all the rows that they may delete leaves none of those that
    -- every one of them is to delete.
    pub dead-gone :
        (left batch : ℕ) (rows : List A) (a : A)
        → IsKeyed id_of rows
        → length (filter possible rows) ≤ left * limit
        → In a (purge_batches id_of dead limit left batch rows).0
        → sure a ≡ false
    unfolding purge_batches
    dead-gone zero batch rows a keyed enough m = elim (Bool-cases (dead batch a)) [
      | inr h ↦ never-sure batch a h
      | inl h ↦ absurd (
          omega (
            arith,
            enough,
            length-In a (filter possible rows) (In-filter possible a rows m (sometimes batch a h)),
          ))
    ]
    dead-gone (suc left) batch rows a keyed enough m =
        let once = purge_batch id_of (dead batch) limit rows in
        let ((live, old, sum), still, count) = batch-IsPurged id_of (dead batch) limit rows keyed in
        elim (Bool-cases (ltb once.1 limit)) [
          | inl last ↦
              let n : In a once.0 = rw last at m in
              never-sure batch a (
                count-none (dead batch) a once.0
                  (omega (arith, old, count, ltb→lt once.1 limit last)) n)
          | inr more ↦
              let n : In a (purge_batches id_of dead limit left (batch + 1) once.0).0 =
                rw more at m in
              let full : limit ≤ once.1 = ground arith in
              dead-gone left (batch + 1) once.0 a still
                (omega (arith, enough, full, possible-batch batch rows keyed)) n
        ]
