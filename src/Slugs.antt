-- ===== src/Slugs.antt =====
-- common/slug.util.ts and checks/check-slug.ts: the names of checks in URLs. A text is folded by
-- the runtime: `normalise` is the normal form NFKD, `lower` the change to lower case. Random bytes
-- and hashes, in hexadecimal, are arguments.
pub mod Laws
mod Examples
use silence_watch.Prelude.{
  Bool, Option, Text, [], decimal, false, filter, if◌then◌else◌, leb, nat_eq, none, not, some, suc,
  take, text_keys, true, zero, ℕ, ◌&&◌, ◌++◌, ◌+◌, ◌-◌, ◌==◌, ◌||◌, ◌∷◌,
}

abbrev pub max_slug_length : ℕ
max_slug_length = 60

abbrev pub dash : ℕ
dash = b'-'

-- The class [a-z0-9].
abbrev pub is_alphanumeric : ℕ → Bool
is_alphanumeric c = leb b'a' c && leb c b'z' || leb b'0' c && leb c b'9'

-- The combining accents, U+0300 to U+036F.
abbrev pub is_accent : ℕ → Bool
is_accent c = leb 768 c && leb c 879

-- `replace(/[^a-z0-9]+/g, '-')`; the flag says that the run of other characters is under way.
unfoldable pub join_words : Bool → Text → Text
join_words in_run [] = []
join_words in_run (c ∷ s) =
    let rest = join_words (not (is_alphanumeric c)) s in
    if is_alphanumeric c then c ∷ rest else if in_run then rest else dash ∷ rest

-- `^-+`.
unfoldable pub trim_front : Text → Text
trim_front [] = []
trim_front (c ∷ s) = let rest = trim_front s in if c == dash then rest else c ∷ s

abbrev pub is_empty : Text → Bool
is_empty [] = true
is_empty (c ∷ s) = false

-- `-+$`.
unfoldable pub trim_back : Text → Text
trim_back [] = []
trim_back (c ∷ s) = let rest = trim_back s in if c == dash && is_empty rest then [] else c ∷ rest

-- The loop of `uniqueSlug`, at the attempt `attempt` of those that are left.
unfoldable pub try_suffixes : (Text → Bool) → Text → ℕ → ℕ → Option Text
try_suffixes is_taken root attempt zero = none
try_suffixes is_taken root attempt (suc left) =
    let candidate = take (max_slug_length - 3) root ++ dash ∷ decimal attempt in
    let rest = try_suffixes is_taken root (attempt + 1) left in
    if is_taken candidate then rest else some candidate

abbrev or_random : Text → Text → Option Text → Text
or_random root random (some candidate) = candidate
or_random root random none = take (max_slug_length - 7) root ++ dash ∷ random

module _ (normalise lower : Text → Text) where
  unfoldable pub slugify : Text → Text → Text
  slugify random value =
      let folded = lower (filter (λ c. not (is_accent c)) (normalise value)) in
      let slug =
        trim_back (take max_slug_length (trim_back (trim_front (join_words false folded)))) in
      if is_empty slug then random else slug

  -- `fallback` is the random text that `slugify` may need, `random` that of the last line; the
  -- number of attempts is the default, five.
  unfoldable pub unique_slug : Text → Text → Text → (Text → Bool) → Text
  unique_slug fallback random base is_taken =
      let root = slugify fallback base in
      if is_taken root then or_random root random (try_suffixes is_taken root 2 4) else root

  -- `sha256` is the hash in hexadecimal.
  unfoldable pub sync_slug : (Text → Text) → Text → Text → Text → Option Text → Text
  sync_slug sha256 fallback name key environment =
      let root = trim_back (take 40 (slugify fallback name)) in
      let fingerprint =
        take 8 (sha256 (elim environment [ none ↦ [] | some e ↦ e ] ++ b'|' ∷ key)) in
      (if is_empty root then [] else root ++ dash ∷ []) ++ fingerprint
