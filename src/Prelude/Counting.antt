-- ===== src/Prelude/Counting.antt =====
-- How many rows pass a test, over the functions on lists.
use Prim.Native.Nat.{ℕ, zero, suc, ◌+◌, ◌≤◌, ◌<◌}
use mathlib.Core.Path.{◌≡◌, refl, ap, sym, ◌∙◌}
use mathlib.Core.Logic.{◌⊎◌, inl, inr}
use mathlib.Core.Bool.{Bool, true, false, not, ◌&&◌, ◌||◌}
use mathlib.Core.List.{List, [], ◌∷◌, ◌++◌, map}
use native.Mathlib.Omega.{arith}
use silence_watch.Prelude.Tests.{Bool-cases, if◌then◌else◌}
use silence_watch.Prelude.Lists.{In, any, filter, length, take}

module _ {A : Type 0} where
  pub any-length : (p : A → Bool) (xs : List A) → any p xs ≡ false → length (filter p xs) ≡ 0
  any-length p [] h = refl
  any-length p (x ∷ xs) h = ground (arith, any-length p xs)

  pub length-append_one :
      (p : A → Bool) (xs : List A) (x : A)
      → length (filter p (xs ++ x ∷ [])) ≡ length (filter p xs) + (if p x then 1 else 0)
  length-append_one p [] x = ground arith
  length-append_one p (y ∷ ys) x = ground (arith, length-append_one p ys x)

  pub any-append_one :
      (p : A → Bool) (xs : List A) (x : A) → any p (xs ++ x ∷ []) ≡ (any p xs || p x)
  any-append_one p [] x = ground arith
  any-append_one p (y ∷ ys) x = ground (arith, any-append_one p ys x)

  -- A selection that is not full has taken everything.
  pub take-short : (n : ℕ) (xs : List A) → length (take n xs) < n → take n xs ≡ xs
  take-short zero xs h = absurd (omega arith)
  take-short (suc n) [] h = refl
  take-short (suc n) (x ∷ xs) h = ap (◌∷◌ x) (take-short n xs (omega arith))

  pub count-weaker :
      (p q : A → Bool) (xs : List A)
      → ((a : A) → p a ≡ true → q a ≡ true)
      → length (filter p xs) ≤ length (filter q xs)
  count-weaker p q [] h = omega arith
  count-weaker p q (x ∷ xs) h = ground (arith, count-weaker p q xs h, h x)

  pub count-filter :
      (p q : A → Bool) (xs : List A) → length (filter p (filter q xs)) ≤ length (filter p xs)
  count-filter p q [] = omega arith
  count-filter p q (x ∷ xs) = ground (arith, count-filter p q xs)

  pub count-split :
      (p q : A → Bool) (xs : List A)
      → length (filter (λ x. p x && q x) xs) + length (filter (λ x. p x && not (q x)) xs)
        ≡ length (filter p xs)
  count-split p q [] = refl
  count-split p q (x ∷ xs) = ground (arith, count-split p q xs)

  pub count-map :
      (p q : A → Bool) (f : A → A) (xs : List A)
      → ((a : A) → p (f a) ≡ true → q a ≡ true)
      → length (filter p (map f xs)) ≤ length (filter q xs)
  count-map p q f [] h = omega arith
  count-map p q f (x ∷ xs) h = ground (arith, count-map p q f xs h, h x)

  pub count-map_ge :
      (p q : A → Bool) (f : A → A) (xs : List A)
      → ((a : A) → q a ≡ true → p (f a) ≡ true)
      → length (filter q xs) ≤ length (filter p (map f xs))
  count-map_ge p q f [] h = omega arith
  count-map_ge p q f (x ∷ xs) h = ground (arith, count-map_ge p q f xs h, h x)

  pub In-any : (p : A → Bool) (a : A) (xs : List A) → In a xs → p a ≡ true → any p xs ≡ true
  In-any p a [] m h = absurd m
  In-any p a (x ∷ xs) (inl e) h = rw (ap p e ∙ h) refl
  In-any p a (x ∷ xs) (inr m) h = ground (arith, In-any p a xs m h)

  pub any-In : (p : A → Bool) (xs : List A) → any p xs ≡ true → (a : A) × In a xs × (p a ≡ true)
  any-In p [] h = cc
  any-In p (x ∷ xs) h = elim (Bool-cases (p x)) [
    | inl e ↦ (x, inl refl, e)
    | inr e ↦ let (a, m, k) = any-In p xs (ground arith) in (a, inr m, k)
  ]

  pub count-none :
      (p : A → Bool) (a : A) (xs : List A) → length (filter p xs) ≡ 0 → In a xs → p a ≡ false
  count-none p a [] h m = absurd m
  count-none p a (x ∷ xs) h (inl e) = rw (sym e) (ground arith)
  count-none p a (x ∷ xs) h (inr m) = count-none p a xs (ground arith) m

  pub In-of_append_one : (a x : A) (xs : List A) → In a (xs ++ x ∷ []) → In a xs ⊎ (x ≡ a)
  In-of_append_one a x [] (inl e) = inr e
  In-of_append_one a x [] (inr m) = absurd m
  In-of_append_one a x (y ∷ ys) (inl e) = inl (inl e)
  In-of_append_one a x (y ∷ ys) (inr m) = elim (In-of_append_one a x ys m) [
    | inl n ↦ inl (inr n)
    | inr e ↦ inr e
  ]
