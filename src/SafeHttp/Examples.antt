-- ===== src/SafeHttp/Examples.antt =====
-- Requests of a server that must not reach its own network.
use silence_watch.Prelude.{
  Bool, Bool-cases, In, List, Option, Text, [], contains, err, false, if◌then◌else◌, inl, inr,
  nat_eq, none, ok, refl, some, split_on, take, text, text_eq, text_keys, true, ◌||◌, ◌∷◌, ◌≡◌, ◌⊎◌,
}
use silence_watch.Signup.Network.{four_numbers, unmapped}
use silence_watch.SafeHttp.{
  Answer, Exchange, HttpConfig, HttpRequest, LookupAddress, Net, Options, Url, all_of,
  assert_literal_host_is_allowed, assert_target_is_allowed, blocked_range, collect, exchange_with,
  guarded_lookup, is_allowed_address, lookup_failed, one_of, private_address, read_reply, responded,
  send, strip_back, strip_brackets,
}
use silence_watch.SafeHttp.Guarding.{
  Offered, addresses, assert_target-send, is_literal, send-allowed,
}

-- Two private networks are known to it.
abbrev net : Net
net = record {
  is_v4 = λ s. four_numbers (split_on b'.' s);
  is_v6 = λ s. contains b':' s;
  check = λ subnets s kind. text_eq (take 3 s) (text "10.") || text_eq (take 8 s) (text "169.254.");
}

abbrev config : HttpConfig
config = record { allow_private_targets = false; notification_timeout = 10000 }

abbrev url_of : Text → Option Url
url_of host = some record {
  protocol = text "https:";
  username = [];
  password = [];
  hostname = host;
  port = [];
  path = text "/hook";
}

abbrev found : Text → Option (List LookupAddress)
found name = some (
    record { address = text "10.0.0.7"; family = 4 }
    ∷ record { address = text "93.184.216.34"; family = 4 }
    ∷ [])

abbrev contacts : Answer → List Text
contacts (all_of as_found) = addresses as_found
contacts (one_of a family) = a ∷ []
contacts _ = []

-- A client that tries all the addresses of the answer, and every host that is an address.
abbrev transport : (Text → Bool → Answer) → HttpRequest → Exchange
transport look request =
    let host = strip_brackets request.url.hostname in
    record {
      contacted =
          if is_literal net host then host ∷ [] else contacts (look request.url.hostname true);
      reply = responded 200 (text "fine" ∷ []);
    }

contacts-Offered : (a : Text) (answer : Answer) → In a (contacts answer) → Offered a answer
contacts-Offered a lookup_failed m = absurd m
contacts-Offered a blocked_range m = absurd m
contacts-Offered a (all_of kept) m = m
contacts-Offered a (one_of b family) (inl e) = e
contacts-Offered a (one_of b family) (inr m) = absurd m

transport-keeps :
    (look : Text → Bool → Answer) (request : HttpRequest) (a : Text)
    → In a (transport look request).contacted
    → (let host = strip_brackets request.url.hostname in (is_literal net host ≡ true) × (host ≡ a))
      ⊎ ((wants_all : Bool) × Offered a (look request.url.hostname wants_all))
transport-keeps look request a m =
    let host = strip_brackets request.url.hostname in
    elim (Bool-cases (is_literal net host)) [
      | inl literal ↦ elim (rw literal at m) [
        | inl same ↦ inl (literal, same)
        | inr rest ↦ absurd rest
      ]
      | inr named ↦ inr (true, contacts-Offered a (look request.url.hostname true) (rw named at m))
    ]

abbrev hook : Options
hook = record {
  target = text "hooks.example.com";
  verb = none;
  payload = some (text "{}");
  timeout_ms = none;
}

test_metadata :
    send net config found transport
      (λ s. s)
      url_of
      (record hook { target = text "169.254.169.254" })
    ≡ record { reached = []; outcome = err (private_address (text "169.254.169.254")) }
unfolding send assert_literal_host_is_allowed is_allowed_address strip_brackets strip_back unmapped
    split_on
test_metadata = refl

test_public :
    send net config found transport (λ s. s) url_of hook
    ≡ record { reached = text "93.184.216.34" ∷ []; outcome = ok (200, text "fine") }
unfolding send assert_literal_host_is_allowed is_allowed_address strip_brackets strip_back unmapped
    split_on guarded_lookup read_reply collect
test_public = refl

send-allowed_example : is_allowed_address net config (text "93.184.216.34") ≡ true
unfolding send assert_literal_host_is_allowed is_allowed_address strip_brackets strip_back unmapped
    split_on guarded_lookup read_reply collect
send-allowed_example =
    send-allowed net config transport transport-keeps found (λ s. s) url_of hook
      (text "93.184.216.34") (inl refl)

abbrev nothing : Text → Option (List LookupAddress)
nothing name = none

assert_target-send_example :
    (url : Url) × (url_of hook.target ≡ some url)
    × (send net config nothing transport (λ s. s) url_of hook
        ≡ exchange_with net config nothing transport (λ s. s) url hook)
unfolding assert_target_is_allowed assert_literal_host_is_allowed is_allowed_address strip_brackets
    strip_back unmapped split_on
assert_target-send_example =
    assert_target-send net config url_of transport (λ s. s) found nothing hook refl
