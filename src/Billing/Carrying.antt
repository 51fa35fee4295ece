-- ===== src/Billing/Carrying.antt =====
-- What a signed request that is accepted carries in its header.
use mathlib.Core.Option.{some-injective}
use silence_watch.Prelude.{
  Bool-cases, In, In-of_append_one, List, Option, Option-cases, Text, [], any-In, arith,
  digits_value, inl, inr, lower_char, map, nat_eq, none, refl, some, split_on, subst, text, text_eq,
  text_eq_iff, text_keys, trim_text, true, ℕ, ◌&&◌, ◌∷◌, ◌≡◌, ◌≤◌, ◌⊎◌,
}
use silence_watch.Billing.Signature.{
  SignatureHeader, check_header, cut_at_equals, distance, is_signature, is_timestamp, read_cut,
  read_pair, read_parts, signed_message, verify_stripe_signature,
}

-- One of the parts has this key, and a value of which `P` holds, but for the space around them.
abbrev pub Carries : Text → (Text → Type 0) → List Text → Type 0
Carries key P parts =
    (p : Text) × In p parts
    × (k : Text) × (v : Text) × (cut_at_equals p ≡ some (k, v))
    × (text_eq (trim_text k) key ≡ true)
    × P (trim_text v)

abbrev pub IsTime : ℕ → Text → Type 0
IsTime t v = (is_timestamp v ≡ true) × (digits_value 0 v ≡ t)

abbrev pub IsHexOf : Text → Text → Type 0
IsHexOf s v = map lower_char v ≡ s

Carries-later :
    (key : Text) (P : Text → Type 0) (p : Text) (ps : List Text)
    → Carries key P ps
    → Carries key P (p ∷ ps)
Carries-later key P p ps (q, m, k, v, cut, is_key, good) = (q, inr m, k, v, cut, is_key, good)

pair-timestamp :
    (k v : Text) (h : SignatureHeader) (t : ℕ)
    → (read_pair k v h).timestamp ≡ some t
    → (h.timestamp ≡ some t) ⊎ ((text_eq k (text "t") ≡ true) × IsTime t v)
unfolding read_pair
pair-timestamp k v h t e = elim (Bool-cases (text_eq k (text "t") && is_timestamp v)) [
  | inl stamp ↦
      inr (ground arith, (ground arith, some-injective (digits_value 0 v) t (rw stamp at e)))
  | inr plain ↦ elim (Bool-cases (text_eq k (text "v1") && is_signature v)) [
    | inl sig ↦ inl (rw sig at (rw plain at e))
    | inr other ↦ inl (rw other at (rw plain at e))
  ]
]

pair-signature :
    (k v : Text) (h : SignatureHeader) (s : Text)
    → In s (read_pair k v h).signatures
    → In s h.signatures ⊎ ((text_eq k (text "v1") ≡ true) × IsHexOf s v)
unfolding read_pair
pair-signature k v h s m = elim (Bool-cases (text_eq k (text "t") && is_timestamp v)) [
  | inl stamp ↦ inl (rw stamp at m)
  | inr plain ↦ elim (Bool-cases (text_eq k (text "v1") && is_signature v)) [
    | inr other ↦ inl (rw other at (rw plain at m))
    | inl sig ↦
        elim (In-of_append_one s (map lower_char v) h.signatures (rw sig at (rw plain at m))) [
          | inl old ↦ inl old
          | inr e ↦ inr (ground arith, e)
        ]
  ]
]

parts-timestamp :
    (ps : List Text) (h : SignatureHeader) (t : ℕ)
    → (read_parts ps h).timestamp ≡ some t
    → (h.timestamp ≡ some t) ⊎ Carries (text "t") (IsTime t) ps
unfolding read_parts read_cut
parts-timestamp [] h t e = inl e
parts-timestamp (p ∷ ps) h t e = elim (parts-timestamp ps (read_cut (cut_at_equals p) h) t e) [
  | inr c ↦ inr (Carries-later (text "t") (IsTime t) p ps c)
  | inl f ↦ elim (Option-cases (cut_at_equals p)) [
    | inl none_there ↦ inl (rw none_there at f)
    | inr ((k, v), cut) ↦ elim (pair-timestamp (trim_text k) (trim_text v) h t (rw cut at f)) [
      | inl old ↦ inl old
      | inr (key, time) ↦ inr (p, inl refl, k, v, cut, key, time)
    ]
  ]
]

parts-signature :
    (ps : List Text) (h : SignatureHeader) (s : Text)
    → In s (read_parts ps h).signatures
    → In s h.signatures ⊎ Carries (text "v1") (IsHexOf s) ps
unfolding read_parts read_cut
parts-signature [] h s m = inl m
parts-signature (p ∷ ps) h s m = elim (parts-signature ps (read_cut (cut_at_equals p) h) s m) [
  | inr c ↦ inr (Carries-later (text "v1") (IsHexOf s) p ps c)
  | inl f ↦ elim (Option-cases (cut_at_equals p)) [
    | inl none_there ↦ inl (rw none_there at f)
    | inr ((k, v), cut) ↦ elim (pair-signature (trim_text k) (trim_text v) h s (rw cut at f)) [
      | inl old ↦ inl old
      | inr (key, hex) ↦ inr (p, inl refl, k, v, cut, key, hex)
    ]
  ]
]

module _ (hmac : Text → Text → Text) where
  checked :
      (payload secret : Text) (now tolerance : ℕ) (timestamp : Option ℕ) (signatures : List Text)
      → check_header hmac payload secret now tolerance timestamp signatures ≡ true
      → (t : ℕ) × (timestamp ≡ some t)
        × (distance now t ≤ tolerance)
        × In (hmac secret (signed_message hmac t payload)) signatures
  unfolding check_header
  checked payload secret now tolerance none signatures h = absurd cc
  checked payload secret now tolerance (some t) signatures h =
      let (s, m, e) =
        any-In (λ s. text_eq s (hmac secret (signed_message hmac t payload))) signatures
          (ground arith) in
      (
        t,
        refl,
        ground arith,
        subst (λ x. In x signatures)
            ((text_eq_iff s (hmac secret (signed_message hmac t payload))).0 e) m,
      )

  -- An accepted header carries an instant within the tolerance of now, and the digest that the
  -- secret gives to this instant and this payload: nothing else is ever accepted.
  pub verify_stripe_signature-Carries :
      (payload header secret : Text) (now tolerance : ℕ)
      → verify_stripe_signature hmac payload (some header) secret now tolerance ≡ true
      → (t : ℕ) × (distance now t ≤ tolerance)
        × Carries (text "t") (IsTime t) (split_on b',' header)
        × Carries
            (text "v1")
            (IsHexOf (hmac secret (signed_message hmac t payload)))
            (split_on b',' header)
  unfolding verify_stripe_signature
  verify_stripe_signature-Carries payload [] secret now tolerance h = absurd cc
  verify_stripe_signature-Carries payload (c ∷ header) secret now tolerance h =
      let parts = split_on b',' (c ∷ header) in
      let start : SignatureHeader = record { timestamp = none; signatures = [] } in
      let read = read_parts parts start in
      let (t, e, near, m) = checked payload secret now tolerance read.timestamp read.signatures h in
      (
        t,
        near,
        elim (parts-timestamp parts start t e) [ inl f ↦ absurd cc | inr given ↦ given ],
        elim (parts-signature parts start (hmac secret (signed_message hmac t payload)) m) [
          | inl f ↦ absurd f
          | inr given ↦ given
        ],
      )
