-- ===== src/Tables/Members.antt =====
-- `x = ANY(xs)` and membership, and rows with ids.
use silence_watch.Prelude.{
  Bool, Bool-cases, In, List, [], ap, arith, false, filter, inl, inr, length, map, nat_eq, refl,
  sym, text_keys, true, ℕ, ◌+◌, ◌==◌, ◌||◌, ◌∙◌, ◌∷◌, ◌≡◌, ◌≤◌,
}
use silence_watch.Tables.{mem}

pub mem-In : (i : ℕ) (is : List ℕ) → In i is → mem i is ≡ true
mem-In i [] m = absurd m
mem-In i (j ∷ is) (inl e) = ground arith
mem-In i (j ∷ is) (inr m) = ground (arith, mem-In i is m)

pub In-mem : (i : ℕ) (is : List ℕ) → mem i is ≡ true → In i is
In-mem i [] h = cc
In-mem i (j ∷ is) h = elim (Bool-cases (j == i)) [
  | inl e ↦ inl (ground arith)
  | inr e ↦ inr (In-mem i is (ground arith))
]

module _ {A : Type 0} (id_of : A → ℕ) where
  -- Ids are a primary key.
  abbrev pub IsKeyed : List A → Type 0
  IsKeyed [] = Unit
  IsKeyed (x ∷ xs) = (mem (id_of x) (map id_of xs) ≡ false) × IsKeyed xs

  count-absent :
      (i : ℕ) (xs : List A)
      → mem i (map id_of xs) ≡ false
      → length (filter (λ x. i == id_of x) xs) ≡ 0
  count-absent i [] h = refl
  count-absent i (x ∷ xs) h = ground (arith, count-absent i xs)

  count-one : (i : ℕ) (xs : List A) → IsKeyed xs → length (filter (λ x. i == id_of x) xs) ≤ 1
  count-one i [] h = omega arith
  count-one i (x ∷ xs) (alone, h) = elim (Bool-cases (i == id_of x)) [
    | inr other ↦ rw other (count-one i xs h)
    | inl same ↦
        let equal : id_of x ≡ i = ground arith in
        let absent : mem i (map id_of xs) ≡ false =
          ap (λ j. mem j (map id_of xs)) (sym equal) ∙ alone in
        rw same (omega (arith, count-absent i xs absent))
  ]

  count-or :
      (p q : A → Bool) (xs : List A)
      → length (filter (λ x. p x || q x) xs) ≤ length (filter p xs) + length (filter q xs)
  count-or p q [] = omega arith
  count-or p q (x ∷ xs) = ground (arith, count-or p q xs)

  count-empty : (xs : List A) → length (filter (λ x. mem (id_of x) []) xs) ≡ 0
  count-empty [] = refl
  count-empty (x ∷ xs) = count-empty xs

  -- A list of ids names as many rows at most.
  pub count-mem :
      (ids : List ℕ) (xs : List A)
      → IsKeyed xs
      → length (filter (λ x. mem (id_of x) ids) xs) ≤ length ids
  count-mem [] xs h = omega (arith, count-empty xs)
  count-mem (i ∷ ids) xs h = omega (
    arith,
    count-or (λ x. i == id_of x) (λ x. mem (id_of x) ids) xs,
    count-one i xs h,
    count-mem ids xs h,
  )
