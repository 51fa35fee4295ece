-- ===== src/Slugs/Laws.antt =====
-- What a slug looks like.
use mathlib.Core.Option.{some-injective}
use silence_watch.Prelude.{
  Bool, Bool-cases, Option-cases, Text, [], arith, decimal, decimal-length, false, filter,
  if◌then◌else◌, inl, inr, length, length-append, length-take, nat_eq, not, refl, some, subst, suc,
  take, text_keys, true, zero, ℕ, ◌&&◌, ◌++◌, ◌+◌, ◌-◌, ◌<◌, ◌==◌, ◌∷◌, ◌≡◌, ◌≤◌, ◌⊎◌,
}
use silence_watch.Slugs.{
  dash, is_accent, is_alphanumeric, is_empty, join_words, max_slug_length, or_random, slugify,
  trim_back, trim_front, try_suffixes, unique_slug,
}

-- Words of [a-z0-9] with single dashes between them; the flag says that a word must come next.
abbrev pub is_words : Bool → Text → Bool
is_words word_next [] = not word_next
is_words word_next (c ∷ s) =
    if is_alphanumeric c then is_words false s else c == dash && (not word_next && is_words true s)

-- The same, without regard to the end.
abbrev is_spaced : Bool → Text → Bool
is_spaced word_next [] = true
is_spaced word_next (c ∷ s) =
    if is_alphanumeric c
    then is_spaced false s
    else c == dash && (not word_next && is_spaced true s)

spaced-weaker : (s : Text) → is_spaced true s ≡ true → is_spaced false s ≡ true
spaced-weaker [] h = refl
spaced-weaker (c ∷ s) h = ground arith

spaced-join_words : (in_run : Bool) (s : Text) → is_spaced in_run (join_words in_run s) ≡ true
unfolding join_words
spaced-join_words in_run [] = refl
spaced-join_words true (c ∷ s) = ground (arith, spaced-join_words true s, spaced-join_words false s)
spaced-join_words false (c ∷ s) =
    ground (arith, spaced-join_words true s, spaced-join_words false s)

trim_front-words : (s : Text) → is_spaced true s ≡ true → trim_front s ≡ s
unfolding trim_front
trim_front-words [] h = refl
trim_front-words (c ∷ s) h = ground arith

spaced-trim_front : (s : Text) → is_spaced false s ≡ true → is_spaced true (trim_front s) ≡ true
unfolding trim_front
spaced-trim_front [] h = refl
spaced-trim_front (c ∷ s) h = elim (Bool-cases (c == dash)) [
  | inl e ↦ rw e (rw (trim_front-words s (ground arith)) (ground arith))
  | inr e ↦ rw e (ground arith)
]

spaced-trim_back : (w : Bool) (s : Text) → is_spaced w s ≡ true → is_spaced w (trim_back s) ≡ true
unfolding trim_back
spaced-trim_back w [] h = refl
spaced-trim_back w (c ∷ s) h = ground (arith, spaced-trim_back true s, spaced-trim_back false s)

spaced-take : (w : Bool) (n : ℕ) (s : Text) → is_spaced w s ≡ true → is_spaced w (take n s) ≡ true
spaced-take w zero s h = refl
spaced-take w (suc n) [] h = refl
spaced-take w (suc n) (c ∷ s) h = ground (arith, spaced-take true n s, spaced-take false n s)

words-empty : (t : Text) → is_empty t ≡ true → is_words false t ≡ true
words-empty [] h = refl
words-empty (c ∷ t) h = cc

words-trim_back :
    (w : Bool) (s : Text)
    → is_spaced w s ≡ true
    → is_empty (trim_back s) ≡ false
    → is_words w (trim_back s) ≡ true
unfolding trim_back
words-trim_back w [] h e = cc
words-trim_back w (c ∷ s) h e =
    ground (arith, words-trim_back true s, words-trim_back false s, words-empty (trim_back s))

length-trim_back : (s : Text) → length (trim_back s) ≤ length s
unfolding trim_back
length-trim_back [] = omega arith
length-trim_back (c ∷ s) = ground (arith, length-trim_back s)

-- A slug: words with single dashes between them, neither empty nor longer than sixty characters.
abbrev pub IsSlug : Text → Type 0
IsSlug s = (is_words true s ≡ true) × (0 < length s) × (length s ≤ max_slug_length)

words-positive : (s : Text) → is_words true s ≡ true → 0 < length s
words-positive [] h = cc
words-positive (c ∷ s) h = omega arith

length-candidate :
    (n : ℕ) (root tail : Text) → length (take n root ++ dash ∷ tail) ≤ n + suc (length tail)
length-candidate n root tail =
    omega (arith, length-append (take n root) (dash ∷ tail), length-take n root)

-- A candidate of the loop is free, and short.
try_suffixes-free :
    (is_taken : Text → Bool) (root : Text) (attempt left : ℕ) (slug : Text)
    → attempt + left ≤ 10
    → try_suffixes is_taken root attempt left ≡ some slug
    → (is_taken slug ≡ false) × (length slug ≤ max_slug_length)
unfolding try_suffixes
try_suffixes-free is_taken root attempt zero slug h e = absurd cc
try_suffixes-free is_taken root attempt (suc left) slug h e =
    let candidate = take (max_slug_length - 3) root ++ dash ∷ decimal attempt in
    let short : length candidate ≤ max_slug_length = omega (
      arith,
      length-candidate (max_slug_length - 3) root (decimal attempt),
      decimal-length attempt 1 (omega arith) (omega arith),
    ) in
    elim (Bool-cases (is_taken candidate)) [
      | inl taken ↦
          try_suffixes-free is_taken root (attempt + 1) left slug (omega arith) (rw taken at e)
      | inr free ↦
          let same : candidate ≡ slug = some-injective candidate slug (rw free at e) in
          subst (λ s. (is_taken s ≡ false) × (length s ≤ max_slug_length)) same (free, short)
    ]

or_random-cases :
    (is_taken : Text → Bool) (root random : Text)
    → length random ≡ 6
    → let s = or_random root random (try_suffixes is_taken root 2 4) in
      (length s ≤ max_slug_length)
      × ((is_taken s ≡ false) ⊎ (s ≡ take (max_slug_length - 7) root ++ dash ∷ random))
or_random-cases is_taken root random h = elim (Option-cases (try_suffixes is_taken root 2 4)) [
  | inl e ↦ rw e (omega (arith, length-candidate (max_slug_length - 7) root random), inr refl)
  | inr (s, e) ↦
      let (free, short) = try_suffixes-free is_taken root 2 4 s (omega arith) e in
      rw e (short, inl free)
]

module _ (normalise lower : Text → Text) where
  -- Whatever the name, and however the runtime folds it, what is made of it is a slug, where the
  -- random text that stands in for a name without words is one.
  pub slugify-IsSlug :
      (random value : Text) → IsSlug random → IsSlug (slugify normalise lower random value)
  unfolding slugify
  slugify-IsSlug random value h =
      let folded = lower (filter (λ c. not (is_accent c)) (normalise value)) in
      let trimmed = trim_back (trim_front (join_words false folded)) in
      let cut = take max_slug_length trimmed in
      let spaced : is_spaced true cut ≡ true = spaced-take true max_slug_length trimmed (
        spaced-trim_back true (trim_front (join_words false folded))
          (spaced-trim_front (join_words false folded) (spaced-join_words false folded))) in
      elim (Bool-cases (is_empty (trim_back cut))) [
        | inl e ↦ rw e h
        | inr e ↦
            let w = words-trim_back true cut spaced e in
            rw e (
              w,
              words-positive (trim_back cut) w,
              omega (arith, length-trim_back cut, length-take max_slug_length trimmed),
            )
      ]

  -- Where the random text that stands in for a name is a slug, and the other one has six
  -- characters, the slug of a new check is at most sixty characters long, and it is free, but for
  -- the one that ends in random characters after five that were taken.
  pub unique_slug-free :
      (is_taken : Text → Bool) (fallback random base : Text)
      → IsSlug fallback
      → length random ≡ 6
      → let s = unique_slug normalise lower fallback random base is_taken in
        (length s ≤ max_slug_length)
        × ((is_taken s ≡ false)
            ⊎ (s
                ≡ take (max_slug_length - 7) (slugify normalise lower fallback base)
                  ++ dash ∷ random))
  unfolding unique_slug
  unique_slug-free is_taken fallback random base slug six =
      let root = slugify normalise lower fallback base in
      elim (Bool-cases (is_taken root)) [
        | inl taken ↦ rw taken (or_random-cases is_taken root random six)
        | inr free ↦
            let (words, positive, short) = slugify-IsSlug fallback base slug in
            rw free (short, inl free)
      ]
