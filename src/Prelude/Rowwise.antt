-- ===== src/Prelude/Rowwise.antt =====
-- Two states of one table, compared row by row.
use silence_watch.Prelude.Lists.{In}
use mathlib.Core.Path.{refl, subst}
use mathlib.Core.Logic.{inl, inr}
use mathlib.Core.List.{List, [], ◌∷◌, map}

-- Two tables row by row.
abbrev pub Rows : {A B : Type 0} → (A → B → Type 0) → List A → List B → Type 0
Rows R [] [] = Unit {0}
Rows R [] (y ∷ ys) = ⊥
Rows R (x ∷ xs) [] = ⊥
Rows R (x ∷ xs) (y ∷ ys) = R x y × Rows R xs ys

module _ {A B : Type 0} (R : A → B → Type 0) where
  pub Rows-map_In :
      (f : A → B) (xs : List A) → ((a : A) → In a xs → R a (f a)) → Rows R xs (map f xs)
  Rows-map_In f [] h = tt
  Rows-map_In f (x ∷ xs) h = (h x (inl refl), Rows-map_In f xs (λ a m. h a (inr m)))

  pub Rows-In :
      (a : A) (xs : List A) (ys : List B) → Rows R xs ys → In a xs → (b : B) × In b ys × R a b
  Rows-In a [] [] r m = absurd m
  Rows-In a [] (y ∷ ys) r m = absurd m
  Rows-In a (x ∷ xs) [] r m = absurd r
  Rows-In a (x ∷ xs) (y ∷ ys) (h, r) (inl e) = (y, inl refl, subst (λ t. R t y) e h)
  Rows-In a (x ∷ xs) (y ∷ ys) (h, r) (inr m) = let (b, n, k) = Rows-In a xs ys r m in (b, inr n, k)

  pub Rows-In_right :
      (b : B) (xs : List A) (ys : List B) → Rows R xs ys → In b ys → (a : A) × In a xs × R a b
  Rows-In_right b [] [] r m = absurd m
  Rows-In_right b [] (y ∷ ys) r m = absurd r
  Rows-In_right b (x ∷ xs) [] r m = absurd m
  Rows-In_right b (x ∷ xs) (y ∷ ys) (h, r) (inl e) = (x, inl refl, subst (R x) e h)
  Rows-In_right b (x ∷ xs) (y ∷ ys) (h, r) (inr m) =
      let (a, n, k) = Rows-In_right b xs ys r m in (a, inr n, k)

pub Rows-map :
    {A B : Type 0} {R S : A → B → Type 0}
    → ((a : A) (b : B) → R a b → S a b)
    → (xs : List A) (ys : List B) → Rows R xs ys
    → Rows S xs ys
Rows-map f [] [] r = tt
Rows-map f [] (y ∷ ys) r = absurd r
Rows-map f (x ∷ xs) [] r = absurd r
Rows-map f (x ∷ xs) (y ∷ ys) (h, r) = (f x y h, Rows-map f xs ys r)

pub Rows-trans :
    {A : Type 0} (R : A → A → Type 0)
    → ((a b c : A) → R a b → R b c → R a c)
    → (xs ys zs : List A) → Rows R xs ys
    → Rows R ys zs
    → Rows R xs zs
Rows-trans R t [] [] [] r s = tt
Rows-trans R t [] [] (z ∷ zs) r s = absurd s
Rows-trans R t [] (y ∷ ys) zs r s = absurd r
Rows-trans R t (x ∷ xs) [] zs r s = absurd r
Rows-trans R t (x ∷ xs) (y ∷ ys) [] r s = absurd s
Rows-trans R t (x ∷ xs) (y ∷ ys) (z ∷ zs) (h, r) (k, s) = (t x y z h k, Rows-trans R t xs ys zs r s)

pub Rows-refl : {A : Type 0} (R : A → A → Type 0) → ((a : A) → R a a) → (xs : List A) → Rows R xs xs
Rows-refl R h [] = tt
Rows-refl R h (x ∷ xs) = (h x, Rows-refl R h xs)
