-- ===== src/Ingest/Values.antt =====
-- The helpers of ingest/ingest.service.ts that make values fit their columns.
use silence_watch.Prelude.{
  Bool, List, Option, Text, [], all, false, filter, if◌then◌else◌, leb, length, ltb, map, nat_eq,
  none, not, some, suc, take, text_keys, true, zero, ℕ, ◌&&◌, ◌+◌, ◌==◌, ◌||◌, ◌∷◌,
}
use silence_watch.Prelude.Int.{ltb_ℤ, negsuc, pos, ℤ}
use silence_watch.Ingest.Sql.{int32_max}

-- A number that the caller passes: an integer, or one that is not finite.
pub data Number : Type 0 where
  finite : ℤ → Number
  not_finite : Number

min_ℤ : ℤ → ℤ → ℤ
min_ℤ a b = if ltb_ℤ b a then b else a

max_ℤ : ℤ → ℤ → ℤ
max_ℤ a b = if ltb_ℤ a b then b else a

-- `clampInt`; an integer is its own truncation.
unfoldable pub clamp_int : Option Number → ℤ → Option ℤ
unfolding min_ℤ max_ℤ
clamp_int none lo = none
clamp_int (some not_finite) lo = none
clamp_int (some (finite n)) lo = some (min_ℤ (pos int32_max) (max_ℤ lo n))

-- The default of `clampInt`'s second parameter, -INT32_MAX.
abbrev pub int32_min : ℤ
int32_min = negsuc 2147483646

unfoldable pub truncate : Option Text → ℕ → Option Text
truncate none limit = none
truncate (some []) limit = none
truncate (some (c ∷ s)) limit =
    if ltb limit (length (c ∷ s)) then some (take limit (c ∷ s)) else some (c ∷ s)

-- The text up to the first `%`.
unfoldable pub before_percent : Text → Text
before_percent [] = []
before_percent (c ∷ s) = if c == b'%' then [] else c ∷ before_percent s

abbrev pub is_digit : ℕ → Bool
is_digit c = leb b'0' c && leb c b'9'

abbrev pub is_hex : ℕ → Bool
is_hex c = is_digit c || (leb b'a' c && leb c b'f') || (leb b'A' c && leb c b'F')

-- A character of the class [0-9a-fA-F:.].
abbrev pub is_address_char : ℕ → Bool
is_address_char c = is_hex c || c == b':' || c == b'.'

unfoldable pub address_or_null : Text → Option Text
address_or_null [] = none
address_or_null (c ∷ s) =
    if ltb 45 (length (c ∷ s))
    then none
    else if all is_address_char (c ∷ s)
    then some (c ∷ s)
    else none

unfoldable pub normalise_ip : Option Text → Option Text
unfolding before_percent address_or_null
normalise_ip none = none
normalise_ip (some ip) = address_or_null (before_percent ip)

unfoldable pub text_or_null : Text → Option Text
text_or_null [] = none
text_or_null (c ∷ s) = some (c ∷ s)

-- `truncateBody`, over Node's UTF-8 decoder.
unfoldable pub truncate_body : (List ℕ → Text) → ℕ → Option (List ℕ) → Option Text
unfolding text_or_null
truncate_body decode max_body_bytes none = none
truncate_body decode max_body_bytes (some []) = none
truncate_body decode max_body_bytes (some (b ∷ bytes)) =
    if max_body_bytes == 0
    then none
    else let slice =
        if ltb max_body_bytes (length (b ∷ bytes))
        then take max_body_bytes (b ∷ bytes)
        else b ∷ bytes in
      text_or_null (filter (λ c. not (c == 0)) (decode slice))

-- The groups of UUID_PATTERN, one test for each character.
abbrev Class : Type 0
Class = ℕ → Bool

hexes : ℕ → List Class → List Class
hexes zero rest = rest
hexes (suc n) rest = is_hex ∷ hexes n rest

is_dash : ℕ → Bool
is_dash c = c == b'-'

is_version : ℕ → Bool
is_version c = leb b'1' c && leb c b'5'

is_variant : ℕ → Bool
is_variant c = c == b'8' || c == b'9' || c == b'a' || c == b'b' || c == b'A' || c == b'B'

uuid_pattern : List Class
unfolding hexes is_dash is_version is_variant
uuid_pattern = hexes 8 (
    is_dash
    ∷ hexes 4
        (is_dash ∷ is_version ∷ hexes 3 (is_dash ∷ is_variant ∷ hexes 3 (is_dash ∷ hexes 12 []))))

test_pattern : List Class → Text → Bool
test_pattern [] [] = true
test_pattern [] (c ∷ s) = false
test_pattern (p ∷ ps) [] = false
test_pattern (p ∷ ps) (c ∷ s) = p c && test_pattern ps s

unfoldable pub is_uuid : Text → Bool
unfolding uuid_pattern test_pattern
is_uuid s = test_pattern uuid_pattern s

-- `toLowerCase`, on the characters that a UUID is made of.
lower : ℕ → ℕ
lower c = if leb b'A' c && leb c b'Z' then c + 32 else c

unfoldable pub to_lower : Text → Text
unfolding lower
to_lower s = map lower s
