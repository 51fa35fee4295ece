-- ===== src/CronSyntax/Numbers.antt =====
-- Expressions of numbers.
use silence_watch.Prelude.{
  Bool, Bool-cases, List, Option, Text, [], all, ap, arith, decimal, decimal-all, decimal-length,
  decimal-value, digits-lack, digits_value, false, if◌then◌else◌, inl, inr, is_blank, is_decimal,
  leb, length, length-append, length-map, ltb, map, nat_eq, none, not, refl, some, split_on,
  split_on-last, text_eq, text_eq_iff, text_keys, trim_end, trim_start, trim_text, true, ℕ, ◌&&◌,
  ◌*◌, ◌<◌, ◌==◌, ◌∙◌, ◌∷◌, ◌≡◌, ◌≤◌,
}
use silence_watch.CronSyntax.{
  FieldSpec, are_valid_fields, before_last, before_nth, five_fields, index_of, is_range,
  is_short_number, is_stepped, is_valid_cron_expression, is_valid_entry, is_valid_field, is_value,
  named_or, parse_value, six_fields, split_spaces, starts_with_at,
}
use silence_watch.CronSyntax.Words.{
  is_word, spaced, spaced-front, split_spaces-spaced, starts-word, trim_end-spaced,
  trim_text-spaced,
}

-- Whether a number lies in the range of a field.
abbrev pub in_range : FieldSpec → ℕ → Bool
in_range spec n = leb spec.least n && leb n spec.greatest

-- No name is a number.
abbrev pub is_named : FieldSpec → Bool
is_named spec = all (λ name. not (all is_decimal name)) spec.names

index-number :
    (t : Text) (names : List Text)
    → all is_decimal t ≡ true
    → all (λ name. not (all is_decimal name)) names ≡ true
    → index_of t names ≡ none
unfolding index_of
index-number t [] h e = refl
index-number t (x ∷ xs) h e = elim (Bool-cases (text_eq x t)) [
  | inl same ↦
      let clash : all is_decimal x ≡ true = ap (all is_decimal) ((text_eq_iff x t).0 same) ∙ h in
      absurd (ground arith)
  | inr other ↦ rw other (rw (index-number t xs h (ground arith)) refl)
]

split_on-digits :
    (sep : ℕ) (t : Text)
    → is_decimal sep ≡ false
    → all is_decimal t ≡ true
    → split_on sep t ≡ t ∷ []
split_on-digits sep t h e = split_on-last sep t (digits-lack sep t h e)

-- A number is no word of one other character.
number-no_word :
    (c : ℕ) (t : Text) → is_decimal c ≡ false → all is_decimal t ≡ true → text_eq t (c ∷ []) ≡ false
number-no_word c [] h e = refl
number-no_word c (d ∷ []) h e = ground arith
number-no_word c (d ∷ f ∷ t) h e = ground arith

-- Whether there is a value.
abbrev is_some : Option ℕ → Bool
is_some none = false
is_some (some v) = true

some-if : (b : Bool) (v : ℕ) → is_some (if b then some v else none) ≡ b
some-if true v = refl
some-if false v = refl

module _ (lower : Text → Text) (spec : FieldSpec) where
  value-token :
      (t : Text)
      → is_short_number 2 t ≡ true
      → index_of (lower t) spec.names ≡ none
      → is_value lower spec t ≡ in_range spec (digits_value 0 t)
  unfolding parse_value
  value-token t h e =
      ap (λ o. elim (named_or lower spec t o) as (λ _. Bool) [ none ↦ false | some v ↦ true ]) e
      ∙ rw h (some-if (in_range spec (digits_value 0 t)) (digits_value 0 t))

  entry-token :
      (t : Text)
      → is_short_number 2 t ≡ true
      → is_valid_entry lower spec t ≡ is_stepped lower spec (split_on b'/' t)
  unfolding is_valid_entry before_last before_nth
  entry-token [] h = absurd cc
  entry-token (c ∷ []) h = ground arith
  entry-token (c ∷ d ∷ []) h = ground arith
  entry-token (c ∷ d ∷ e ∷ s) h = absurd (ground arith)

  stepped-token :
      (t : Text)
      → is_short_number 2 t ≡ true
      → is_stepped lower spec (t ∷ []) ≡ is_value lower spec t
  unfolding is_stepped is_range
  stepped-token t h =
      let parts : split_on b'-' t ≡ t ∷ [] = split_on-digits b'-' t refl (ground arith) in
      rw parts (rw (number-no_word b'*' t refl (ground arith)) refl)

  field-token :
      (t : Text)
      → is_short_number 2 t ≡ true
      → index_of (lower t) spec.names ≡ none
      → is_valid_field lower t spec ≡ in_range spec (digits_value 0 t)
  unfolding is_valid_field
  field-token [] h e = absurd cc
  field-token (c ∷ t) h e =
      let digits : all is_decimal (c ∷ t) ≡ true = ground arith in
      let listed = split_on-digits b',' (c ∷ t) refl digits in
      let stepped = split_on-digits b'/' (c ∷ t) refl digits in
      let entry =
        entry-token (c ∷ t) h
        ∙ ap (is_stepped lower spec) stepped
        ∙ stepped-token (c ∷ t) h
        ∙ value-token (c ∷ t) h e in
      rw (number-no_word b'?' (c ∷ t) refl digits)
        (ap (all (is_valid_entry lower spec)) listed ∙ rw entry (ground arith))

-- Numbers below a hundred, as they are written.
short-decimal : (n : ℕ) → n < 100 → is_short_number 2 (decimal n) ≡ true
short-decimal n h = ground (arith, decimal-length n 2 h (omega arith), decimal-all n)

decimals-spaced :
    (ns : List ℕ)
    → all (λ n. ltb n 100) ns ≡ true
    → (length (spaced (map decimal ns)) ≤ 3 * length ns) × (all is_word (map decimal ns) ≡ true)
decimals-spaced [] h = ground arith
decimals-spaced (n ∷ []) h = ground (arith, short-decimal n)
decimals-spaced (n ∷ m ∷ ns) h =
    let size = length-append (decimal n) (32 ∷ spaced (map decimal (m ∷ ns))) in
    ground (arith, short-decimal n, decimals-spaced (m ∷ ns))

-- Whether numbers lie in the ranges of their fields.
abbrev pub in_ranges : List ℕ → List FieldSpec → Bool
in_ranges [] specs = true
in_ranges (n ∷ ns) [] = false
in_ranges (n ∷ ns) (spec ∷ specs) = in_range spec n && in_ranges ns specs

-- What five or six numbers must satisfy.
abbrev pub are_in_ranges : List ℕ → Bool
are_in_ranges ns =
    if length ns == 6
    then in_ranges ns six_fields
    else if length ns == 5
    then in_ranges ns five_fields
    else false

-- A trimmed text that is no macro and not long is judged by its fields.
trimmed-fields :
    (lower : Text → Text) (t : Text)
    → trim_text t ≡ t
    → is_blank t ≡ false
    → starts_with_at t ≡ false
    → length t ≤ 3 * length (split_spaces false t)
    → is_valid_cron_expression lower t ≡ (
        let fields = split_spaces false t in
        if length fields == 6
        then are_valid_fields lower fields six_fields
        else if length fields == 5
        then are_valid_fields lower fields five_fields
        else false)
unfolding is_valid_cron_expression
trimmed-fields lower t trimmed filled plain short = rw trimmed (rw filled (rw plain (ground arith)))

module _ (lower : Text → Text) (kept : (t : Text) → all is_decimal t ≡ true → lower t ≡ t) where
  field-number :
      (n : ℕ) (spec : FieldSpec)
      → n < 100
      → is_named spec ≡ true
      → is_valid_field lower (decimal n) spec ≡ in_range spec n
  field-number n spec h e =
      let no_name =
        ap (λ t. index_of t spec.names) (kept (decimal n) (decimal-all n))
        ∙ index-number (decimal n) spec.names (decimal-all n) e in
      field-token lower spec (decimal n) (short-decimal n h) no_name
      ∙ ap (in_range spec) (decimal-value n)

  fields-numbers :
      (ns : List ℕ) (specs : List FieldSpec)
      → all (λ n. ltb n 100) ns ≡ true
      → all is_named specs ≡ true
      → are_valid_fields lower (map decimal ns) specs ≡ in_ranges ns specs
  unfolding are_valid_fields
  fields-numbers [] specs h e = refl
  fields-numbers (n ∷ ns) [] h e = refl
  fields-numbers (n ∷ ns) (spec ∷ specs) h e =
      rw (field-number n spec (ground arith) (ground arith))
        (rw (fields-numbers ns specs (ground arith) (ground arith)) refl)

  fields-ranges :
      (ns : List ℕ)
      → all (λ n. ltb n 100) ns ≡ true
      → (let fields = map decimal ns in
          if length fields == 6
          then are_valid_fields lower fields six_fields
          else if length fields == 5
          then are_valid_fields lower fields five_fields
          else false)
        ≡ are_in_ranges ns
  fields-ranges ns h =
      rw (length-map ns decimal)
        (rw (fields-numbers ns six_fields h refl) (rw (fields-numbers ns five_fields h refl) refl))

  -- Numbers below one hundred with single spaces between them are accepted exactly when there are
  -- five or six of them and each lies in the range of its field, the seconds standing first when
  -- there are six; `lower` changes no text of digits.
  pub valid_expression-numbers :
      (ns : List ℕ)
      → all (λ n. ltb n 100) ns ≡ true
      → is_valid_cron_expression lower (spaced (map decimal ns)) ≡ are_in_ranges ns
  unfolding is_valid_cron_expression trim_text trim_end trim_start
  valid_expression-numbers [] h = refl
  valid_expression-numbers (n ∷ ns) h =
      let (short, words) = decimals-spaced (n ∷ ns) h in
      let t = spaced (map decimal (n ∷ ns)) in
      let parts = split_spaces-spaced (decimal n) (map decimal ns) words in
      let at =
        spaced-front (λ s. starts_with_at s ≡ false) (decimal n) (map decimal ns)
          (λ s. starts-word (decimal n) s (ground arith)) in
      trimmed-fields lower t (trim_text-spaced (decimal n) (map decimal ns) words)
        (trim_end-spaced (decimal n) (map decimal ns) words).1 at
        (rw parts (rw (length-map (n ∷ ns) decimal) short))
      ∙ rw parts (fields-ranges (n ∷ ns) h)
