-- ===== src/OrderedMap.antt =====
-- The JavaScript `Map` that the server keeps its in-memory tables in: an association list in
-- insertion order. Writing a key that is present keeps its place; a new key goes to the end.
use silence_watch.Prelude.{
  Eq, List, Option, [], ap, arith, if◌then◌else◌, length, none, refl, some, suc, true, ◌∷◌, ◌≡◌,
  ◌≤◌,
}

module _ {K : Type 0} ⦃e : Eq K⦄ where
  pub beq_refl : (k : K) → e.beq k k ≡ true
  beq_refl k = (e.beq_iff k k).1 refl

  pub beq-left : (i k j : K) → e.beq i k ≡ true → e.beq i j ≡ e.beq k j
  beq-left i k j h = ap (λ t. e.beq t j) ((e.beq_iff i k).0 h)

  pub beq-right : (i k j : K) → e.beq k j ≡ true → e.beq i k ≡ e.beq i j
  beq-right i k j h = ap (e.beq i) ((e.beq_iff k j).0 h)

module _ {ℓ} {K : Type 0} {V : Type ℓ} ⦃e : Eq K⦄ where
  unfoldable pub get : K → List (K × V) → Option V
  get k [] = none
  get k ((j, v) ∷ m) = if e.beq j k then some v else get k m

  unfoldable pub delete : K → List (K × V) → List (K × V)
  delete k [] = []
  delete k ((j, v) ∷ m) = if e.beq j k then delete k m else (j, v) ∷ delete k m

  unfoldable pub set : K → V → List (K × V) → List (K × V)
  set k v [] = (k, v) ∷ []
  set k v ((j, w) ∷ m) = if e.beq j k then (k, v) ∷ m else (j, w) ∷ set k v m

  pub get-set :
      (k j : K) (v : V) (m : List (K × V))
      → get j (set k v m) ≡ (if e.beq k j then some v else get j m)
  unfolding get set
  get-set k j v [] = refl
  get-set k j v ((i, w) ∷ m) = ground (arith, beq-left i k j, beq-right i k j, get-set k j v m)

  pub get-delete :
      (k j : K) (m : List (K × V)) → get j (delete k m) ≡ (if e.beq k j then none else get j m)
  unfolding get delete
  get-delete k j [] = ground arith
  get-delete k j ((i, w) ∷ m) = ground (arith, beq-left i k j, beq-right i k j, get-delete k j m)

  pub length-delete-le : (k : K) (m : List (K × V)) → length (delete k m) ≤ length m
  unfolding delete
  length-delete-le k [] = omega arith
  length-delete-le k ((j, v) ∷ m) = ground (arith, length-delete-le k m)

  pub length-set-le : (k : K) (v : V) (m : List (K × V)) → length (set k v m) ≤ suc (length m)
  unfolding set
  length-set-le k v [] = omega arith
  length-set-le k v ((j, w) ∷ m) = ground (arith, length-set-le k v m)

  pub length-set_present :
      (k : K) (v w : V) (m : List (K × V)) → get k m ≡ some w → length (set k v m) ≡ length m
  unfolding get set
  length-set_present k v w [] h = cc
  length-set_present k v w ((j, u) ∷ m) h = ground (arith, length-set_present k v w m)
