-- ===== src/SafeHttp/Guarding.antt =====
-- What the guard on addresses means for the requests that are sent.
use silence_watch.Prelude.{
  Bool, Bool-cases, In, List, Option, Result, Text, [], ap, arith, err, false, filter, inl, inr,
  map, nat_eq, none, ok, refl, some, sym, text_keys, true, ◌>>=◌, ◌||◌, ◌∙◌, ◌∷◌, ◌≡◌, ◌⊎◌,
}
use silence_watch.SafeHttp.{
  Answer, Exchange, HttpConfig, HttpError, HttpRequest, LookupAddress, Net, Options, Url, all_of,
  answer_with, assert_literal_host_is_allowed, assert_target_is_allowed, check_target, check_url,
  exchange_with, guarded_lookup, is_allowed_address, one_of, request_of, send, send_checked,
  send_parsed, strip_brackets, vet_found, vet_url,
}

abbrev pub addresses : List LookupAddress → List Text
addresses found = map (λ entry. entry.address) found

-- Whether an answer offers an address to connect to.
abbrev pub Offered : Text → Answer → Type 0
Offered a (all_of found) = In a (addresses found)
Offered a (one_of b family) = b ≡ a
Offered a _ = ⊥

-- Whether a host is an address, for which nothing is looked up.
abbrev pub is_literal : Net → Text → Bool
is_literal net host = net.is_v4 host || net.is_v6 host

allowed-In :
    (p : Text → Bool) (a : Text) (found : List LookupAddress)
    → In a (addresses (filter (λ entry. p entry.address) found))
    → p a ≡ true
allowed-In p a [] m = absurd m
allowed-In p a (x ∷ xs) m = elim (Bool-cases (p x.address)) [
  | inl kept ↦ elim (rw kept at m) as (λ _. p a ≡ true) [
    | inl same ↦ ap p (sym same) ∙ kept
    | inr rest ↦ allowed-In p a xs rest
  ]
  | inr left ↦ allowed-In p a xs (rw left at m)
]

module _ (net : Net) (config : HttpConfig) where
  offered-allowed :
      (a : Text) (wants_all : Bool) (kept : List LookupAddress)
      → Offered a (answer_with net config wants_all kept)
      → In a (addresses kept)
  offered-allowed a wants_all [] m = absurd m
  offered-allowed a true (x ∷ xs) m = m
  offered-allowed a false (x ∷ xs) m = inl m

  lookup-allowed :
      (a : Text) (found : Option (List LookupAddress)) (wants_all : Bool)
      → Offered a (guarded_lookup net config found wants_all)
      → is_allowed_address net config a ≡ true
  unfolding guarded_lookup
  lookup-allowed a none wants_all m = absurd m
  lookup-allowed a (some found) wants_all m = allowed-In (is_allowed_address net config) a found (
      offered-allowed a wants_all
        (filter (λ entry. is_allowed_address net config entry.address) found) m)

  literal-allowed :
      (url : Url)
      → check_url net config url ≡ ok tt
      → is_literal net (strip_brackets url.hostname) ≡ true
      → is_allowed_address net config (strip_brackets url.hostname) ≡ true
  unfolding assert_literal_host_is_allowed
  literal-allowed url h e = ground arith

  module _ (transport : (Text → Bool → Answer) → HttpRequest → Exchange)
      (keeps : (look : Text → Bool → Answer) (request : HttpRequest) (a : Text)
        → In a (transport look request).contacted
        → (let host = strip_brackets request.url.hostname in
            (is_literal net host ≡ true) × (host ≡ a))
          ⊎ ((wants_all : Bool) × Offered a (look request.url.hostname wants_all))) where
    exchange-allowed :
        (resolve : Text → Option (List LookupAddress)) (decode : Text → Text) (url : Url)
        (options : Options) (a : Text) (checked : Result HttpError (Unit {0}))
        → check_url net config url ≡ checked
        → In a (send_checked net config resolve transport decode url options checked).reached
        → is_allowed_address net config a ≡ true
    exchange-allowed resolve decode url options a (err e) h m = absurd m
    exchange-allowed resolve decode url options a (ok passed) h m =
        let look : Text → Bool → Answer =
          λ name wants_all. guarded_lookup net config (resolve name) wants_all in
        elim (keeps look (request_of net config url options) a m) [
          | inl (literal, same) ↦
              ap (is_allowed_address net config) (sym same) ∙ literal-allowed url h literal
          | inr (wants_all, offered) ↦ lookup-allowed a (resolve url.hostname) wants_all offered
        ]

    -- Every address that `send` contacts is an allowed one, whatever the URL is and whatever the
    -- resolver answers at that moment. The client connects to the host itself where that is an
    -- address, and else to an address that the lookup handed to it.
    pub send-allowed :
        (resolve : Text → Option (List LookupAddress)) (decode : Text → Text)
        (parse_url : Text → Option Url) (options : Options) (a : Text)
        → In a (send net config resolve transport decode parse_url options).reached
        → is_allowed_address net config a ≡ true
    unfolding send
    send-allowed resolve decode parse_url options a m = parsed (parse_url options.target) m
      where
        parsed :
            (o : Option Url)
            → In a (send_parsed net config resolve transport decode options o).reached
            → is_allowed_address net config a ≡ true
        parsed none n = absurd n
        parsed (some url) n =
            exchange-allowed resolve decode url options a (check_url net config url) refl n

module _ (net : Net) (config : HttpConfig) (parse_url : Text → Option Url)
    (transport : (Text → Bool → Answer) → HttpRequest → Exchange) (decode : Text → Text) where
  check_target-check_url :
      (url : Url) → check_target net config url ≡ ok tt → check_url net config url ≡ ok tt
  check_target-check_url url h = ground arith

  vetted :
      (url : Url) (found : Option (List LookupAddress)) (r : Result HttpError (Unit {0}))
      → r >>= (λ passed. vet_found net config url found) ≡ ok tt
      → r ≡ ok tt
  vetted url found (err e) n = absurd cc
  vetted url found (ok passed) n = refl

  -- A target that the preflight accepts passes every check that `send` makes before it opens a
  -- connection, whatever the resolver said or will say: the URL is parsed, and the request goes to
  -- the transport, with the guarded lookup.
  pub assert_target-send :
      (at_creation at_sending : Text → Option (List LookupAddress)) (options : Options)
      → assert_target_is_allowed net config parse_url at_creation options.target ≡ ok tt
      → (url : Url) × (parse_url options.target ≡ some url)
        × (send net config at_sending transport decode parse_url options
            ≡ exchange_with net config at_sending transport decode url options)
  unfolding assert_target_is_allowed send
  assert_target-send at_creation at_sending options h = parsed (parse_url options.target) h
    where
      parsed :
          (o : Option Url)
          → vet_url net config at_creation o ≡ ok tt
          → (url : Url) × (o ≡ some url)
            × (send_parsed net config at_sending transport decode options o
                ≡ exchange_with net config at_sending transport decode url options)
      parsed none n = absurd cc
      parsed (some url) n =
          let first = vetted url (at_creation url.hostname) (check_target net config url) n in
          let passed = check_target-check_url url first in
          (url, refl, ap (send_checked net config at_sending transport decode url options) passed)
