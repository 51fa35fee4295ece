-- ===== src/CronSyntax.antt =====
-- packages/shared/src/cron.ts: which cron expressions are accepted. The change of a text to lower
-- case is the argument `lower`.
pub mod Words
pub mod Numbers
mod Examples
use silence_watch.Prelude.{
  Bool, List, Option, Text, [], all, any, cons_head, digits_value, false, if◌then◌else◌, is_blank,
  is_decimal, is_space, leb, length, ltb, nat_eq, none, some, split_on, suc, text, text_eq,
  text_keys, trim_text, true, ℕ, ◌&&◌, ◌*◌, ◌+◌, ◌==◌, ◌||◌, ◌∷◌,
}

-- `shift` is what is added to the place of a name: months count from one, days from zero.
pub record FieldSpec : Type 0 where
  pub least : ℕ
  pub greatest : ℕ
  pub names : List Text
  pub shift : ℕ
  pub allow_question_mark : Bool
  pub allow_last : Bool
  pub allow_nth : Bool

abbrev pub macros : List Text
macros =
    text "@yearly"
    ∷ text "@annually"
    ∷ text "@monthly"
    ∷ text "@weekly"
    ∷ text "@daily"
    ∷ text "@midnight"
    ∷ text "@hourly"
    ∷ []

abbrev pub month_names : List Text
month_names =
    text "jan"
    ∷ text "feb"
    ∷ text "mar"
    ∷ text "apr"
    ∷ text "may"
    ∷ text "jun"
    ∷ text "jul"
    ∷ text "aug"
    ∷ text "sep"
    ∷ text "oct"
    ∷ text "nov"
    ∷ text "dec"
    ∷ []

abbrev pub day_names : List Text
day_names =
    text "sun" ∷ text "mon" ∷ text "tue" ∷ text "wed" ∷ text "thu" ∷ text "fri" ∷ text "sat" ∷ []

abbrev pub plain_field : ℕ → ℕ → FieldSpec
plain_field least greatest = record {
  least = least;
  greatest = greatest;
  names = [];
  shift = 0;
  allow_question_mark = false;
  allow_last = false;
  allow_nth = false;
}

abbrev pub sixtieth : FieldSpec
sixtieth = plain_field 0 59

abbrev pub hour : FieldSpec
hour = plain_field 0 23

abbrev pub day_of_month : FieldSpec
day_of_month = record (plain_field 1 31) { allow_question_mark = true; allow_last = true }

abbrev pub month : FieldSpec
month = record (plain_field 1 12) { names = month_names; shift = 1 }

abbrev pub day_of_week : FieldSpec
day_of_week = record (plain_field 0 7) {
  names = day_names;
  allow_question_mark = true;
  allow_last = true;
  allow_nth = true;
}

abbrev pub five_fields : List FieldSpec
five_fields = sixtieth ∷ hour ∷ day_of_month ∷ month ∷ day_of_week ∷ []

abbrev pub six_fields : List FieldSpec
six_fields = sixtieth ∷ five_fields

-- `indexOf`.
unfoldable pub index_of : Text → List Text → Option ℕ
index_of name [] = none
index_of name (x ∷ xs) =
    let rest = index_of name xs in
    if text_eq x name then some 0 else elim rest [ none ↦ none | some i ↦ some (suc i) ]

-- `/^\d{1,n}$/`.
abbrev pub is_short_number : ℕ → Text → Bool
is_short_number n s = leb 1 (length s) && (leb (length s) n && all is_decimal s)

module _ (lower : Text → Text) where
  abbrev number_value : FieldSpec → Text → Option ℕ
  number_value spec token =
      let value = digits_value 0 token in
      if is_short_number 2 token && (leb spec.least value && leb value spec.greatest)
      then some value
      else none

  abbrev named_or : FieldSpec → Text → Option ℕ → Option ℕ
  named_or spec token none = number_value spec token
  named_or spec token (some i) = some (i + spec.shift)

  unfoldable pub parse_value : Text → FieldSpec → Option ℕ
  parse_value token spec = named_or spec token (index_of (lower token) spec.names)

  abbrev pub is_value : FieldSpec → Text → Bool
  is_value spec token = elim (parse_value token spec) [ none ↦ false | some v ↦ true ]

  unfoldable pub is_range : FieldSpec → List Text → Bool
  is_range spec (from ∷ []) = is_value spec from
  is_range spec (from ∷ to ∷ []) = is_value spec from && is_value spec to
  is_range spec _ = false

  abbrev is_bounds : FieldSpec → Text → Bool
  is_bounds spec range = text_eq range (text "*") || is_range spec (split_on b'-' range)

  unfoldable pub is_stepped : FieldSpec → List Text → Bool
  is_stepped spec (range ∷ []) = is_bounds spec range
  is_stepped spec (range ∷ step ∷ []) =
      is_short_number 3 step && (leb 1 (digits_value 0 step) && is_bounds spec range)
  is_stepped spec _ = false

-- `/^(.+)L$/i`: what stands before a last `L`.
unfoldable pub before_last : Text → Option Text
before_last [] = none
before_last (c ∷ []) = none
before_last (c ∷ d ∷ []) = if d == b'L' || d == b'l' then some (c ∷ []) else none
before_last (c ∷ d ∷ e ∷ s) = elim (before_last (d ∷ e ∷ s)) [
  | none ↦ none
  | some stem ↦ some (c ∷ stem)
]

-- `/^(.+)#([1-5])$/`.
unfoldable pub before_nth : Text → Option Text
before_nth [] = none
before_nth (c ∷ []) = none
before_nth (c ∷ d ∷ []) = none
before_nth (c ∷ d ∷ e ∷ []) =
    if d == b'#' && (leb b'1' e && leb e b'5') then some (c ∷ []) else none
before_nth (c ∷ d ∷ e ∷ f ∷ s) = elim (before_nth (d ∷ e ∷ f ∷ s)) [
  | none ↦ none
  | some stem ↦ some (c ∷ stem)
]

module _ (lower : Text → Text) where
  abbrev after_nth : FieldSpec → Text → Option Text → Bool
  after_nth spec entry none = is_stepped lower spec (split_on b'/' entry)
  after_nth spec entry (some stem) = spec.allow_nth && is_value lower spec stem

  abbrev after_last : FieldSpec → Text → Option Text → Bool
  after_last spec entry none = after_nth spec entry (before_nth entry)
  after_last spec entry (some stem) = spec.allow_last && is_value lower spec stem

  unfoldable pub is_valid_entry : FieldSpec → Text → Bool
  is_valid_entry spec [] = false
  is_valid_entry spec (c ∷ s) =
      if text_eq (c ∷ s) (text "L") || text_eq (c ∷ s) (text "l")
      then spec.allow_last
      else after_last spec (c ∷ s) (before_last (c ∷ s))

  unfoldable pub is_valid_field : Text → FieldSpec → Bool
  is_valid_field [] spec = false
  is_valid_field (c ∷ field) spec =
      if text_eq (c ∷ field) (text "?")
      then spec.allow_question_mark
      else all (is_valid_entry spec) (split_on b',' (c ∷ field))

  unfoldable pub are_valid_fields : List Text → List FieldSpec → Bool
  are_valid_fields [] specs = true
  are_valid_fields (f ∷ fs) [] = false
  are_valid_fields (f ∷ fs) (spec ∷ specs) = is_valid_field f spec && are_valid_fields fs specs

-- `split(/\s+/)` of a text without space at its ends; the flag says that a run of it is under way.
unfoldable pub split_spaces : Bool → Text → List Text
split_spaces in_run [] = [] ∷ []
split_spaces in_run (c ∷ s) =
    let rest = split_spaces (is_space c) s in
    if is_space c then (if in_run then rest else [] ∷ rest) else cons_head c rest

abbrev pub starts_with_at : Text → Bool
starts_with_at [] = false
starts_with_at (c ∷ s) = c == b'@'

unfoldable pub is_valid_cron_expression : (Text → Text) → Text → Bool
is_valid_cron_expression lower expression =
    let trimmed = trim_text expression in
    let fields = split_spaces false trimmed in
    if is_blank trimmed || ltb 200 (length trimmed)
    then false
    else if starts_with_at trimmed
    then any (text_eq (lower trimmed)) macros
    else if length fields == 6
    then are_valid_fields lower fields six_fields
    else if length fields == 5
    then are_valid_fields lower fields five_fields
    else false
