-- ===== src/Billing/Signing.antt =====
-- Headers that Stripe would have sent, and what an accepted header carries.
use silence_watch.Prelude.{
  Text, [], all, ap, arith, contains, decimal, decimal-all, decimal-length, decimal-value, false,
  is_decimal, length, lower_char, ltb, map, nat_eq, none, not, refl, some, split_on-last,
  split_on-part, text, text_eq_refl, text_keys, trim_end, trim_start, trim_text, true, ℕ, ◌++◌, ◌<◌,
  ◌^◌, ◌∙◌, ◌∷◌, ◌≡◌,
}
use silence_watch.Billing.Signature.{
  SignatureHeader, check_header, cut_at_equals, distance, is_hex_lower, is_signature, is_timestamp,
  read_cut, read_pair, read_parts, sign_stripe_payload, signed_message, verify_stripe_signature,
}

-- What HMAC-SHA256 prints: sixty-four hexadecimal digits.
abbrev pub IsDigest : Text → Type 0
IsDigest s = (length s ≡ 64) × (all is_hex_lower s ≡ true)

hex-lower : (c : ℕ) → is_hex_lower c ≡ true → lower_char c ≡ c
hex-lower c h = ground arith

map-lower : (s : Text) → all is_hex_lower s ≡ true → map lower_char s ≡ s
map-lower [] h = refl
map-lower (c ∷ s) h = ground (arith, hex-lower c, map-lower s)

all-lower : (s : Text) → all is_hex_lower s ≡ true → all (λ c. is_hex_lower (lower_char c)) s ≡ true
all-lower [] h = refl
all-lower (c ∷ s) h = ground (arith, hex-lower c, all-lower s)

hex-of_digits : (s : Text) → all is_decimal s ≡ true → all is_hex_lower s ≡ true
hex-of_digits [] h = refl
hex-of_digits (c ∷ s) h = ground (arith, hex-of_digits s)

hex-lacks :
    (c : ℕ) (s : Text) → is_hex_lower c ≡ false → all is_hex_lower s ≡ true → contains c s ≡ false
hex-lacks c [] h e = refl
hex-lacks c (d ∷ s) h e = ground (arith, hex-lacks c s)

-- A text of such digits has no space to trim.
trim_start-hex : (s : Text) → all is_hex_lower s ≡ true → trim_start s ≡ s
unfolding trim_start
trim_start-hex [] h = refl
trim_start-hex (c ∷ s) h = ground arith

trim_end-hex : (s : Text) → all is_hex_lower s ≡ true → trim_end s ≡ s
unfolding trim_end
trim_end-hex [] h = refl
trim_end-hex (c ∷ s) h = ground (arith, trim_end-hex s)

trim_text-hex : (s : Text) → all is_hex_lower s ≡ true → trim_text s ≡ s
unfolding trim_text
trim_text-hex s h = ap trim_end (trim_start-hex s h) ∙ trim_end-hex s h

trim_text-keys : (trim_text (text "t") ≡ text "t") × (trim_text (text "v1") ≡ text "v1")
unfolding trim_text trim_start trim_end
trim_text-keys = (refl, refl)

read-timestamp :
    (n : ℕ) (h : SignatureHeader)
    → n < 10 ^ 12
    → read_cut (cut_at_equals (text "t=" ++ decimal n)) h ≡ record h { timestamp = some n }
unfolding cut_at_equals read_cut read_pair
read-timestamp n h small =
    let digits = decimal-all n in
    let size = decimal-length n 12 small (omega arith) in
    let plain = trim_text-hex (decimal n) (hex-of_digits (decimal n) digits) in
    let stamp : is_timestamp (decimal n) ≡ true = ground arith in
    rw (trim_text-keys.0) (rw plain (rw stamp (rw (decimal-value n) refl)))

read-signature :
    (s : Text) (h : SignatureHeader)
    → IsDigest s
    → read_cut (cut_at_equals (text "v1=" ++ s)) h
      ≡ record h { signatures = h.signatures ++ s ∷ [] }
unfolding cut_at_equals read_cut read_pair
read-signature s h (size, hex) =
    let plain = trim_text-hex s hex in
    let sound : is_signature s ≡ true = ground (arith, all-lower s hex) in
    rw (trim_text-keys.1) (rw plain (rw sound (rw (map-lower s hex) refl)))

module _ (hmac : Text → Text → Text) where
  -- A header that is made of a payload, with a secret and at an instant of at most twelve digits, is
  -- accepted for this payload and secret exactly while the instant is within the tolerance, if a
  -- digest is sixty-four hexadecimal digits.
  pub verify_stripe_signature-sign :
      (payload secret : Text) (at now tolerance : ℕ)
      → at < 10 ^ 12
      → IsDigest (hmac secret (signed_message hmac at payload))
      → verify_stripe_signature hmac payload
          (some (sign_stripe_payload hmac payload secret at))
          secret
          now
          tolerance
        ≡ not (ltb tolerance (distance now at))
  unfolding verify_stripe_signature sign_stripe_payload read_parts check_header
  verify_stripe_signature-sign payload secret at now tolerance small (size, hex) =
      let digest = hmac secret (signed_message hmac at payload) in
      let first : contains b',' (text "t=" ++ decimal at) ≡ false =
        hex-lacks b',' (decimal at) refl (hex-of_digits (decimal at) (decimal-all at)) in
      let second : contains b',' (text "v1=" ++ digest) ≡ false = hex-lacks b',' digest refl hex in
      let parts =
        split_on-part b',' (text "t=" ++ decimal at) (text "v1=" ++ digest) first
        ∙ ap (λ r. (text "t=" ++ decimal at) ∷ r)
            (split_on-last b',' (text "v1=" ++ digest) second) in
      rw parts (
        rw (read-timestamp at (record { timestamp = none; signatures = [] }) small) (
          rw (read-signature digest (record { timestamp = some at; signatures = [] }) (size, hex))
            (rw (text_eq_refl digest) (ground arith))))
