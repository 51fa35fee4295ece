-- ===== src/Prelude/Sorting.antt =====
-- Sorting rows by a number, and taking the first of them.
use Prim.Native.Nat.{ℕ, zero, suc, ◌≤◌, ◌<◌}
use mathlib.Core.Path.{◌≡◌, refl, ap}
use mathlib.Core.Logic.{◌⊎◌, inl, inr}
use mathlib.Core.Bool.{Bool, true}
use mathlib.Core.List.{List, [], ◌∷◌}
use native.Mathlib.Omega.{arith}
use silence_watch.Prelude.Tests.{if◌then◌else◌, leb, Bool-cases}
use silence_watch.Prelude.Lists.{length, filter, take, In, All}

-- `ORDER BY key`: an insertion sort, which keeps the order of rows with equal keys.
module _ {ℓ} {A : Type ℓ} (key : A → ℕ) where
  unfoldable pub insert_by : A → List A → List A
  insert_by a [] = a ∷ []
  insert_by a (x ∷ xs) =
      let rest = insert_by a xs in if leb (key a) (key x) then a ∷ x ∷ xs else x ∷ rest

  unfoldable pub sort_by : List A → List A
  sort_by [] = []
  sort_by (x ∷ xs) = insert_by x (sort_by xs)

module _ {A : Type 0} (key : A → ℕ) where
  In-insert_by : (a b : A) (xs : List A) → (a ≡ b) ⊎ In b xs → In b (insert_by key a xs)
  unfolding insert_by
  In-insert_by a b [] m = m
  In-insert_by a b (x ∷ xs) m = elim (Bool-cases (leb (key a) (key x))) [
    | inl e ↦ rw e m
    | inr e ↦ rw e (past (In-insert_by a b xs) m)
  ]
    where
      past :
          ((a ≡ b) ⊎ In b xs → In b (insert_by key a xs))
          → (a ≡ b) ⊎ (x ≡ b) ⊎ In b xs
          → (x ≡ b) ⊎ In b (insert_by key a xs)
      past ih (inl p) = inr (ih (inl p))
      past ih (inr (inl p)) = inl p
      past ih (inr (inr n)) = inr (ih (inr n))

  pub In-sort_by : (b : A) (xs : List A) → In b xs → In b (sort_by key xs)
  unfolding sort_by
  In-sort_by b [] m = m
  In-sort_by b (x ∷ xs) (inl e) = In-insert_by x b (sort_by key xs) (inl e)
  In-sort_by b (x ∷ xs) (inr m) = In-insert_by x b (sort_by key xs) (inr (In-sort_by b xs m))

  In-of_insert_by : (a b : A) (xs : List A) → In b (insert_by key a xs) → (a ≡ b) ⊎ In b xs
  unfolding insert_by
  In-of_insert_by a b [] m = m
  In-of_insert_by a b (x ∷ xs) m = elim (Bool-cases (leb (key a) (key x))) [
    | inl e ↦ rw e at m
    | inr e ↦ past (In-of_insert_by a b xs) (rw e at m)
  ]
    where
      past :
          (In b (insert_by key a xs) → (a ≡ b) ⊎ In b xs)
          → (x ≡ b) ⊎ In b (insert_by key a xs)
          → (a ≡ b) ⊎ (x ≡ b) ⊎ In b xs
      past ih (inl p) = inr (inl p)
      past ih (inr n) = elim (ih n) [ inl p ↦ inl p | inr k ↦ inr (inr k) ]

  pub In-of_sort_by : (b : A) (xs : List A) → In b (sort_by key xs) → In b xs
  unfolding sort_by
  In-of_sort_by b [] m = m
  In-of_sort_by b (x ∷ xs) m = elim (In-of_insert_by x b (sort_by key xs) m) [
    | inl e ↦ inl e
    | inr n ↦ inr (In-of_sort_by b xs n)
  ]

  -- Sorting keeps how many elements pass a test.
  count-insert_by :
      (p : A → Bool) (a : A) (xs : List A)
      → length (filter p (insert_by key a xs)) ≡ length (filter p (a ∷ xs))
  unfolding insert_by
  count-insert_by p a [] = refl
  count-insert_by p a (x ∷ xs) = ground (arith, count-insert_by p a xs)

  pub count-sort_by :
      (p : A → Bool) (xs : List A) → length (filter p (sort_by key xs)) ≡ length (filter p xs)
  unfolding sort_by
  count-sort_by p [] = refl
  count-sort_by p (x ∷ xs) =
      ground (arith, count-insert_by p x (sort_by key xs), count-sort_by p xs)

  length-insert_by : (a : A) (xs : List A) → length (insert_by key a xs) ≡ suc (length xs)
  unfolding insert_by
  length-insert_by a [] = refl
  length-insert_by a (x ∷ xs) = ground (arith, length-insert_by a xs)

  pub length-sort_by : (xs : List A) → length (sort_by key xs) ≡ length xs
  unfolding sort_by
  length-sort_by [] = refl
  length-sort_by (x ∷ xs) = ground (arith, length-insert_by x (sort_by key xs), length-sort_by xs)

module _ {A : Type 0} where
  pub In-take_all : (n : ℕ) (a : A) (xs : List A) → length xs ≤ n → In a xs → In a (take n xs)
  In-take_all zero a [] h m = m
  In-take_all zero a (x ∷ xs) h m = absurd (omega arith)
  In-take_all (suc n) a [] h m = m
  In-take_all (suc n) a (x ∷ xs) h (inl e) = inl e
  In-take_all (suc n) a (x ∷ xs) h (inr m) = inr (In-take_all n a xs (omega arith) m)

  pub In-of_take : (n : ℕ) (a : A) (xs : List A) → In a (take n xs) → In a xs
  In-of_take zero a xs m = absurd m
  In-of_take (suc n) a [] m = m
  In-of_take (suc n) a (x ∷ xs) (inl e) = inl e
  In-of_take (suc n) a (x ∷ xs) (inr m) = inr (In-of_take n a xs m)

  -- How many elements pass a test splits over `take` and `drop`.
  pub count-take :
      (p : A → Bool) (n : ℕ) (xs : List A) → length (filter p (take n xs)) ≤ length (filter p xs)
  count-take p zero xs = omega arith
  count-take p (suc n) [] = omega arith
  count-take p (suc n) (x ∷ xs) = ground (arith, count-take p n xs)

  pub filter-true : (p : A → Bool) (xs : List A) → All (λ x. p x ≡ true) xs → filter p xs ≡ xs
  filter-true p [] h = refl
  filter-true p (x ∷ xs) (here, h) = rw here (ap (◌∷◌ x) (filter-true p xs h))

  pub All-of_In {κ} : {P : A → Type κ} (xs : List A) → ((a : A) → In a xs → P a) → All P xs
  All-of_In [] h = tt
  All-of_In (x ∷ xs) h = (h x (inl refl), All-of_In xs (λ a m. h a (inr m)))

  pub length-In : (a : A) (xs : List A) → In a xs → 0 < length xs
  length-In a [] m = absurd m
  length-In a (x ∷ xs) m = omega arith
