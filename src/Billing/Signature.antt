-- ===== src/Billing/Signature.antt =====
-- billing/stripe-signature.ts. HMAC-SHA256 in hexadecimal is the argument `hmac`: of a secret and
-- the bytes of a message; digests are compared in that form. `nowSeconds` and the tolerance are
-- arguments, as in the source.
use silence_watch.Prelude.{
  Bool, List, Option, Text, [], all, any, decimal, digits_value, false, if◌then◌else◌, is_decimal,
  leb, length, lower_char, ltb, map, nat_eq, none, not, some, split_on, text, text_eq, text_keys,
  trim_text, ℕ, ◌&&◌, ◌++◌, ◌+◌, ◌-◌, ◌==◌, ◌||◌, ◌∷◌,
}

abbrev pub signature_tolerance_seconds : ℕ
signature_tolerance_seconds = 300

-- What stands before and behind the first `=`.
unfoldable pub cut_at_equals : Text → Option (Text × Text)
cut_at_equals [] = none
cut_at_equals (c ∷ s) =
    let rest = cut_at_equals s in
    if c == b'='
    then some ([], s)
    else elim rest [ none ↦ none | some cut ↦ some (c ∷ cut.0, cut.1) ]

abbrev pub is_timestamp : Text → Bool
is_timestamp s = leb 1 (length s) && (leb (length s) 12 && all is_decimal s)

abbrev pub is_hex_lower : ℕ → Bool
is_hex_lower c = is_decimal c || leb b'a' c && leb c b'f'

abbrev pub is_signature : Text → Bool
is_signature s = length s == 64 && all (λ c. is_hex_lower (lower_char c)) s

pub record SignatureHeader : Type 0 where
  pub timestamp : Option ℕ
  pub signatures : List Text

-- One round of the loop, for a part with this key and this value.
unfoldable pub read_pair : Text → Text → SignatureHeader → SignatureHeader
read_pair key value h =
    if text_eq key (text "t") && is_timestamp value
    then record h { timestamp = some (digits_value 0 value) }
    else if text_eq key (text "v1") && is_signature value
    then record h { signatures = h.signatures ++ map lower_char value ∷ [] }
    else h

unfoldable pub read_cut : Option (Text × Text) → SignatureHeader → SignatureHeader
read_cut none h = h
read_cut (some (key, value)) h = read_pair (trim_text key) (trim_text value) h

unfoldable pub read_parts : List Text → SignatureHeader → SignatureHeader
read_parts [] h = h
read_parts (p ∷ ps) h = read_parts ps (read_cut (cut_at_equals p) h)

abbrev pub distance : ℕ → ℕ → ℕ
distance a b = (a - b) + (b - a)

module _ (hmac : Text → Text → Text) where
  unfoldable pub signed_message : ℕ → Text → Text
  signed_message timestamp payload = decimal timestamp ++ b'.' ∷ payload

  unfoldable pub check_header : Text → Text → ℕ → ℕ → Option ℕ → List Text → Bool
  check_header payload secret now tolerance none signatures = false
  check_header payload secret now tolerance (some timestamp) signatures =
      not (ltb tolerance (distance now timestamp))
      && any (λ s. text_eq s (hmac secret (signed_message timestamp payload))) signatures

  unfoldable pub verify_stripe_signature : Text → Option Text → Text → ℕ → ℕ → Bool
  verify_stripe_signature payload none secret now tolerance = false
  verify_stripe_signature payload (some []) secret now tolerance = false
  verify_stripe_signature payload (some (c ∷ header)) secret now tolerance =
      let h =
        read_parts (split_on b',' (c ∷ header)) (record { timestamp = none; signatures = [] }) in
      check_header payload secret now tolerance h.timestamp h.signatures

  unfoldable pub sign_stripe_payload : Text → Text → ℕ → Text
  sign_stripe_payload payload secret at =
      text "t=" ++ (decimal at ++ b',' ∷ (text "v1=" ++ hmac secret (signed_message at payload)))
