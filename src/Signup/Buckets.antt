-- ===== src/Signup/Buckets.antt =====
-- Which IPv4 addresses share a network.
use mathlib.Core.List.{append_assoc}
use silence_watch.Prelude.{
  List, Text, [], all, ap, arith, contains, contains-append, digits-lack, digits_value, false,
  is_decimal, join_with, length, lower_char, nat_eq, refl, some, split_on, split_on-last,
  split_on-part, subst, suc, sym, text, text_keys, true, zero, ℕ, ◌++◌, ◌==◌, ◌↔◌, ◌∙◌, ◌∷◌, ◌≡◌,
  ◌≢◌, ◌≤◌,
}
use silence_watch.Signup.Network.{
  address_at, address_of, four_numbers, is_ipv4, is_octet, mapped_or, network_at, network_of,
  some_digits, strip_prefix, unmapped,
}

-- An address as it is written: four numbers, with dots between them.
abbrev pub dotted : Text → Text → Text → Text → Text
dotted a b c d = a ++ b'.' ∷ (b ++ b'.' ∷ (c ++ b'.' ∷ d))

-- The network that three texts name.
abbrev pub net : Text → Text → Text → Text
net a b c = a ++ b'.' ∷ (b ++ b'.' ∷ (c ++ text ".0/24"))

octet-digits : (s : Text) → is_octet s ≡ true → all is_decimal s ≡ true
octet-digits s h = ground arith

octet-lacks : (c : ℕ) (s : Text) → is_decimal c ≡ false → is_octet s ≡ true → contains c s ≡ false
octet-lacks c s h e = digits-lack c s h (octet-digits s e)

octet-some : (s : Text) → is_octet s ≡ true → some_digits s ≡ true
octet-some [] h = cc
octet-some (c ∷ s) h = octet-digits (c ∷ s) h

-- A network that three octets name is taken apart at its dots.
split-net :
    (a b c : Text)
    → is_octet a ≡ true
    → is_octet b ≡ true
    → is_octet c ≡ true
    → split_on b'.' (net a b c) ≡ a ∷ b ∷ c ∷ text "0/24" ∷ []
unfolding split_on
split-net a b c ha hb hc =
    split_on-part b'.' a (b ++ b'.' ∷ (c ++ text ".0/24")) (octet-lacks b'.' a refl ha)
    ∙ ap (λ r. a ∷ r) (split_on-part b'.' b (c ++ text ".0/24") (octet-lacks b'.' b refl hb))
    ∙ ap (λ r. a ∷ b ∷ r) (split_on-part b'.' c (text "0/24") (octet-lacks b'.' c refl hc))

module _ (a b c d : Text) (ha : is_octet a ≡ true) (hb : is_octet b ≡ true) (hc : is_octet c ≡ true)
    (hd : is_octet d ≡ true) where
  split-dotted : split_on b'.' (dotted a b c d) ≡ a ∷ b ∷ c ∷ d ∷ []
  split-dotted =
      split_on-part b'.' a (b ++ b'.' ∷ (c ++ b'.' ∷ d)) (octet-lacks b'.' a refl ha)
      ∙ ap (λ r. a ∷ r) (split_on-part b'.' b (c ++ b'.' ∷ d) (octet-lacks b'.' b refl hb))
      ∙ ap (λ r. a ∷ b ∷ r) (split_on-part b'.' c d (octet-lacks b'.' c refl hc))
      ∙ ap (λ r. a ∷ b ∷ c ∷ r) (split_on-last b'.' d (octet-lacks b'.' d refl hd))

  dotted-colon : contains b':' (dotted a b c d) ≡ false
  dotted-colon =
      let tail =
        contains-append b':' c (b'.' ∷ d) (octet-lacks b':' c refl hc)
          (octet-lacks b':' d refl hd) in
      let middle =
        contains-append b':' b (b'.' ∷ (c ++ b'.' ∷ d)) (octet-lacks b':' b refl hb) tail in
      contains-append b':' a (b'.' ∷ (b ++ b'.' ∷ (c ++ b'.' ∷ d))) (octet-lacks b':' a refl ha)
        middle

  is_ipv4-dotted : is_ipv4 (split_on b'.' (dotted a b c d)) ≡ true
  unfolding is_ipv4
  is_ipv4-dotted = rw split-dotted (rw ha (rw hb (rw hc (rw hd refl))))

  network_at-dotted : network_at (dotted a b c d) ≡ net a b c
  unfolding network_at join_with
  network_at-dotted = rw dotted-colon (
      rw is_ipv4-dotted (
        rw split-dotted (
          append_assoc a (b'.' ∷ (b ++ b'.' ∷ c)) (text ".0/24")
          ∙ ap (λ r. a ++ b'.' ∷ r) (append_assoc b (b'.' ∷ c) (text ".0/24")))))

  address_at-dotted : address_at (dotted a b c d) ≡ dotted a b c d
  unfolding address_at
  address_at-dotted = rw dotted-colon (rw is_ipv4-dotted refl)

  dotted-cases : (e : ℕ) × (s : Text) × (dotted a b c d ≡ e ∷ s) × ((lower_char e == b':') ≡ false)
  dotted-cases = first a ha
    where
      first :
          (t : Text)
          → is_octet t ≡ true
          → (e : ℕ) × (s : Text) × (dotted t b c d ≡ e ∷ s) × ((lower_char e == b':') ≡ false)
      first [] h = cc
      first (e ∷ s) h = (e, dotted s b c d, refl, ground arith)

  -- What is written as an address is read as one, with the prefix `::ffff:` and without.
  network_of-read :
      (network_of (some (dotted a b c d)) ≡ net a b c)
      × (address_of (some (dotted a b c d)) ≡ dotted a b c d)
  unfolding network_of address_of unmapped strip_prefix mapped_or
  network_of-read =
      let (e, s, same, no_colon) = dotted-cases in
      (
        subst (λ t. network_of (some t) ≡ net a b c) (sym same)
            (rw no_colon (ap network_at (sym same) ∙ network_at-dotted)),
        subst (λ t. address_of (some t) ≡ dotted a b c d) (sym same)
            (rw no_colon (ap address_at (sym same) ∙ address_at-dotted)),
      )

  network_of-mapped :
      (network_of (some (text "::ffff:" ++ dotted a b c d)) ≡ net a b c)
      × (address_of (some (text "::ffff:" ++ dotted a b c d)) ≡ dotted a b c d)
  unfolding network_of address_of unmapped strip_prefix mapped_or
  network_of-mapped =
      let four : four_numbers (split_on b'.' (dotted a b c d)) ≡ true = rw split-dotted (
        rw (octet-some a ha)
          (rw (octet-some b hb) (rw (octet-some c hc) (rw (octet-some d hd) refl)))) in
      rw four (network_at-dotted, address_at-dotted)

-- Four octets.
abbrev pub IsIpv4 : Text → Text → Text → Text → Type 0
IsIpv4 a b c d =
    (is_octet a ≡ true) × (is_octet b ≡ true) × (is_octet c ≡ true) × (is_octet d ≡ true)

abbrev part : ℕ → List Text → Text
part n [] = []
part zero (p ∷ ps) = p
part (suc n) (p ∷ ps) = part n ps

-- An IPv4 address has the network of its first three numbers and a line of its own, and the same
-- address with the prefix `::ffff:` of IPv6 has no other.
pub network_of-IsIpv4 :
    (a b c d : Text)
    → IsIpv4 a b c d
    → (network_of (some (dotted a b c d)) ≡ net a b c)
      × (address_of (some (dotted a b c d)) ≡ dotted a b c d)
      × (network_of (some (text "::ffff:" ++ dotted a b c d)) ≡ net a b c)
      × (address_of (some (text "::ffff:" ++ dotted a b c d)) ≡ dotted a b c d)
network_of-IsIpv4 a b c d (ha, hb, hc, hd) =
    let plain = network_of-read a b c d ha hb hc hd in
    let mapped = network_of-mapped a b c d ha hb hc hd in (plain.0, plain.1, mapped.0, mapped.1)

-- Two IPv4 addresses in dotted notation count as one network exactly if their first three numbers are
-- written alike.
pub network_of-same :
    (a b c d a' b' c' d' : Text)
    → IsIpv4 a b c d
    → IsIpv4 a' b' c' d'
    → (network_of (some (dotted a b c d)) ≡ network_of (some (dotted a' b' c' d')))
      ↔ ((a ≡ a') × (b ≡ b') × (c ≡ c'))
network_of-same a b c d a' b' c' d' (ha, hb, hc, hd) (ha', hb', hc', hd') =
    let left = (network_of-read a b c d ha hb hc hd).0 in
    let right = (network_of-read a' b' c' d' ha' hb' hc' hd').0 in
    (
      λ e.
          let same : a ∷ b ∷ c ∷ text "0/24" ∷ [] ≡ a' ∷ b' ∷ c' ∷ text "0/24" ∷ [] =
            sym (split-net a b c ha hb hc)
            ∙ ap (split_on b'.') (sym left ∙ e ∙ right)
            ∙ split-net a' b' c' ha' hb' hc' in
          (ap (part 0) same, ap (part 1) same, ap (part 2) same),
      λ (i, j, k). left ∙ rw i (rw j (rw k refl)) ∙ sym right,
    )

-- An octet of one or two digits with a zero in front is another text for the same number, and makes
-- of the same address another network.
pub network_of-padded :
    (a b c d : Text)
    → IsIpv4 a b c d
    → length a ≤ 2
    → let again = dotted (b'0' ∷ a) b c d in
      (digits_value 0 (b'0' ∷ a) ≡ digits_value 0 a)
      × (network_of (some again) ≡ net (b'0' ∷ a) b c)
      × (network_of (some again) ≢ network_of (some (dotted a b c d)))
network_of-padded a b c d (ha, hb, hc, hd) h =
    let hz : is_octet (b'0' ∷ a) ≡ true = ground arith in
    (
      refl,
      (network_of-read (b'0' ∷ a) b c d hz hb hc hd).0,
      λ e.
          let same =
            (network_of-same (b'0' ∷ a) b c d a b c d (hz, hb, hc, hd) (ha, hb, hc, hd)).0 e in
          let count : suc (length a) ≡ length a = ap length same.0 in absurd (omega (arith, count)),
    )
