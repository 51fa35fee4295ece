-- ===== src/Signup/Network.antt =====
-- auth/signup/network.ts: the network, and the line, that an address belongs to.
use silence_watch.Prelude.{
  Bool, List, Option, Text, [], all, cons_head, contains, digits_value, false, if◌then◌else◌,
  is_decimal, join_with, leb, length, lower_char, map, nat_eq, none, some, split_on, suc, take,
  text, text_keys, zero, ℕ, ◌&&◌, ◌++◌, ◌-◌, ◌==◌, ◌||◌, ◌∷◌,
}

abbrev pub unknown : Text
unknown = text "unknown"

abbrev pub some_digits : Text → Bool
some_digits [] = false
some_digits (c ∷ s) = all is_decimal (c ∷ s)

abbrev pub four_numbers : List Text → Bool
four_numbers (a ∷ b ∷ c ∷ d ∷ []) =
    some_digits a && (some_digits b && (some_digits c && some_digits d))
four_numbers _ = false

-- `::ffff:`, in any case, and what stands behind it.
unfoldable pub strip_prefix : Text → Text → Option Text
strip_prefix [] s = some s
strip_prefix (p ∷ ps) [] = none
strip_prefix (p ∷ ps) (c ∷ s) =
    let rest = strip_prefix ps s in if lower_char c == p then rest else none

unfoldable pub mapped_or : Text → Option Text → Text
mapped_or ip none = ip
mapped_or ip (some rest) = if four_numbers (split_on b'.' rest) then rest else ip

-- `mapped?.[1] ?? ip`.
unfoldable pub unmapped : Text → Text
unfolding strip_prefix mapped_or
unmapped ip = mapped_or ip (strip_prefix (text "::ffff:") ip)

-- One octet: one to three digits, of at most 255.
abbrev pub is_octet : Text → Bool
is_octet s =
    leb 1 (length s) && (leb (length s) 3 && (all is_decimal s && leb (digits_value 0 s) 255))

unfoldable pub is_ipv4 : List Text → Bool
is_ipv4 octets = length octets == 4 && all is_octet octets

-- `split('::')`.
unfoldable pub halves_of : Text → List Text
halves_of [] = [] ∷ []
halves_of (c ∷ []) = (c ∷ []) ∷ []
halves_of (c ∷ d ∷ s) =
    let rest = halves_of s in
    let next = halves_of (d ∷ s) in if c == b':' && d == b':' then [] ∷ rest else cons_head c next

abbrev groups_in : Text → List Text
groups_in [] = []
groups_in (c ∷ s) = split_on b':' (c ∷ s)

abbrev zeros : ℕ → List Text
zeros zero = []
zeros (suc n) = (b'0' ∷ []) ∷ zeros n

abbrev is_hex_digit : ℕ → Bool
is_hex_digit c = is_decimal c || (leb b'a' (lower_char c) && leb (lower_char c) b'f')

abbrev is_group : Text → Bool
is_group s = leb 1 (length s) && (leb (length s) 4 && all is_hex_digit s)

-- `replace(/^0+(?=.)/, '')`.
unfoldable pub strip_zeros : Text → Text
strip_zeros [] = []
strip_zeros (c ∷ []) = c ∷ []
strip_zeros (c ∷ d ∷ s) = let rest = strip_zeros (d ∷ s) in if c == b'0' then rest else c ∷ d ∷ s

eight_groups : List Text → Option (List Text)
eight_groups groups =
    if length groups == 8 && all is_group groups
    then some (map (λ g. strip_zeros (map lower_char g)) groups)
    else none

expand_halves : List Text → Option (List Text)
expand_halves (head ∷ []) = eight_groups (groups_in head)
expand_halves (head ∷ tail ∷ []) =
    let before = groups_in head in
    let after = groups_in tail in
    eight_groups (before ++ (zeros (8 - length before - length after) ++ after))
expand_halves _ = none

unfoldable pub expand_ipv6 : Text → Option (List Text)
unfolding eight_groups expand_halves
expand_ipv6 address = expand_halves (halves_of address)

abbrev prefix_of : ℕ → Text → Option (List Text) → Text
prefix_of n suffix none = unknown
prefix_of n suffix (some groups) = join_with (b':' ∷ []) (take n groups) ++ suffix

unfoldable pub network_at : Text → Text
network_at address =
    if contains b':' address
    then prefix_of 3 (text "::/48") (expand_ipv6 address)
    else if is_ipv4 (split_on b'.' address)
    then join_with (b'.' ∷ []) (take 3 (split_on b'.' address)) ++ text ".0/24"
    else unknown

unfoldable pub address_at : Text → Text
address_at address =
    if contains b':' address
    then prefix_of 4 (text "::/64") (expand_ipv6 address)
    else if is_ipv4 (split_on b'.' address)
    then address
    else unknown

unfoldable pub network_of : Option Text → Text
unfolding network_at
network_of none = unknown
network_of (some []) = unknown
network_of (some (c ∷ ip)) = network_at (unmapped (c ∷ ip))

unfoldable pub address_of : Option Text → Text
unfolding address_at
address_of none = unknown
address_of (some []) = unknown
address_of (some (c ∷ ip)) = address_at (unmapped (c ∷ ip))
