-- ===== src/SafeHttp.antt =====
-- notifications/safe-http.service.ts: requests to URLs that users supply. The functions of Node's
-- `net` are the argument `net`, the resolver and the HTTP client are arguments of the operations,
-- and the bytes of a body are decoded by `decode`.
pub mod Guarding
mod Examples
use silence_watch.Prelude.{
  Bool, List, Option, Result, Text, [], any, err, filter, if◌then◌else◌, is_blank, leb, length, ltb,
  nat_eq, none, not, ok, some, split_on, take, text, text_eq, text_keys, true, ℕ, ◌&&◌, ◌++◌, ◌+◌,
  ◌==◌, ◌>>=◌, ◌||◌, ◌∷◌,
}
use silence_watch.Signup.Network.{unmapped}

pub data Family : Type 0 where
  ipv4 : Family
  ipv6 : Family

pub record Subnet : Type 0 where
  pub net : Text
  pub prefix : ℕ
  pub kind : Family

-- `isIPv4`, `isIPv6`, and `check` of a `BlockList` to which subnets were added.
pub record Net : Type 0 where
  pub is_v4 : Text → Bool
  pub is_v6 : Text → Bool
  pub check : List Subnet → Text → Family → Bool

abbrev v4 : Text → ℕ → Subnet
v4 net prefix = record { net = net; prefix = prefix; kind = ipv4 }

abbrev v6 : Text → ℕ → Subnet
v6 net prefix = record { net = net; prefix = prefix; kind = ipv6 }

abbrev pub block_list : List Subnet
block_list =
    v4 (text "0.0.0.0") 8
    ∷ v4 (text "10.0.0.0") 8
    ∷ v4 (text "100.64.0.0") 10
    ∷ v4 (text "127.0.0.0") 8
    ∷ v4 (text "169.254.0.0") 16
    ∷ v4 (text "172.16.0.0") 12
    ∷ v4 (text "192.0.0.0") 24
    ∷ v4 (text "192.0.2.0") 24
    ∷ v4 (text "192.88.99.0") 24
    ∷ v4 (text "192.168.0.0") 16
    ∷ v4 (text "198.18.0.0") 15
    ∷ v4 (text "198.51.100.0") 24
    ∷ v4 (text "203.0.113.0") 24
    ∷ v4 (text "224.0.0.0") 4
    ∷ v4 (text "240.0.0.0") 4
    ∷ v6 (text "::") 96
    ∷ v6 (text "64:ff9b::") 96
    ∷ v6 (text "64:ff9b:1::") 48
    ∷ v6 (text "100::") 64
    ∷ v6 (text "2001::") 32
    ∷ v6 (text "2002::") 16
    ∷ v6 (text "2001:db8::") 32
    ∷ v6 (text "fc00::") 7
    ∷ v6 (text "fec0::") 10
    ∷ v6 (text "fe80::") 10
    ∷ v6 (text "ff00::") 8
    ∷ []

pub record HttpConfig : Type 0 where
  pub allow_private_targets : Bool
  pub notification_timeout : ℕ

pub record Url : Type 0 where
  pub protocol : Text
  pub username : Text
  pub password : Text
  pub hostname : Text
  pub port : Text
  pub path : Text

pub record LookupAddress : Type 0 where
  pub address : Text
  pub family : ℕ

-- What the lookup hands to its callback.
pub data Answer : Type 0 where
  lookup_failed : Answer
  blocked_range : Answer
  all_of : List LookupAddress → Answer
  one_of : Text → ℕ → Answer

pub data HttpError : Type 0 where
  invalid_url : HttpError
  not_a_url : HttpError
  only_http : HttpError
  unsupported_protocol : HttpError
  embedded_credentials : HttpError
  private_address : Text → HttpError
  redirect : ℕ → HttpError
  http_error : ℕ → Text → HttpError
  timed_out : ℕ → HttpError
  broken : HttpError

-- `/^\[|\]$/g` replaced by nothing.
unfoldable pub strip_back : Text → Text
strip_back [] = []
strip_back (c ∷ []) = if c == b']' then [] else c ∷ []
strip_back (c ∷ d ∷ s) = c ∷ strip_back (d ∷ s)

unfoldable pub strip_brackets : Text → Text
strip_brackets [] = []
strip_brackets (c ∷ s) = if c == b'[' then strip_back s else strip_back (c ∷ s)

abbrev pub is_http : Text → Bool
is_http protocol = text_eq protocol (text "https:") || text_eq protocol (text "http:")

abbrev pub has_credentials : Url → Bool
has_credentials url = not (is_blank url.username) || not (is_blank url.password)

-- What the transport says of an exchange: the chunks of the response come one by one.
pub data TransportReply : Type 0 where
  no_reply : TransportReply
  silent : TransportReply
  responded : ℕ → List Text → TransportReply

pub record Exchange : Type 0 where
  pub contacted : List Text
  pub reply : TransportReply

pub record HttpRequest : Type 0 where
  pub method : Text
  pub url : Url
  pub timeout : ℕ
  pub body : Option Text

pub record Options : Type 0 where
  pub target : Text
  pub verb : Option Text
  pub payload : Option Text
  pub timeout_ms : Option ℕ

-- What `send` came to, with the addresses that were contacted.
pub record Sent : Type 0 where
  pub reached : List Text
  pub outcome : Result HttpError (ℕ × Text)

-- The bounded prefix of a response.
unfoldable pub collect : ℕ → List Text → Text
collect size [] = []
collect size (chunk ∷ chunks) =
    let grown = collect (size + length chunk) chunks in
    let same = collect size chunks in if ltb size 2048 then chunk ++ grown else same

-- `firstLine`; the mark of what is cut is the ellipsis.
unfoldable pub first_line : List Text → Text
first_line [] = []
first_line (line ∷ rest) = if ltb 200 (length line) then take 200 line ++ 8230 ∷ [] else line

abbrev or_default {ℓ} : {A : Type ℓ} → A → Option A → A
or_default a none = a
or_default a (some b) = b

module _ (net : Net) (config : HttpConfig) where
  unfoldable pub is_allowed_address : Text → Bool
  is_allowed_address address =
      let candidate = unmapped address in
      if config.allow_private_targets
      then true
      else if net.is_v4 candidate
      then not (net.check block_list candidate ipv4)
      else net.is_v6 candidate && not (net.check block_list candidate ipv6)

  unfoldable pub assert_literal_host_is_allowed : Url → Result HttpError (Unit {0})
  assert_literal_host_is_allowed url =
      let host = strip_brackets url.hostname in
      if (net.is_v4 host || net.is_v6 host) && not (is_allowed_address host)
      then err (private_address url.hostname)
      else ok tt

  -- The addresses of an answer that may be contacted, or the refusal.
  abbrev answer_with : Bool → List LookupAddress → Answer
  answer_with wants_all [] = blocked_range
  answer_with wants_all (a ∷ rest) =
      if wants_all then all_of (a ∷ rest) else one_of a.address a.family

  -- What the resolver said of the name comes in as `found`.
  unfoldable pub guarded_lookup : Option (List LookupAddress) → Bool → Answer
  guarded_lookup none wants_all = lookup_failed
  guarded_lookup (some found) wants_all =
      answer_with wants_all (filter (λ entry. is_allowed_address entry.address) found)

  -- The checks of `send`.
  abbrev pub check_url : Url → Result HttpError (Unit {0})
  check_url url =
      if not (is_http url.protocol)
      then err unsupported_protocol
      else if has_credentials url
      then err embedded_credentials
      else assert_literal_host_is_allowed url

  -- The checks of the preflight that need no resolver.
  abbrev pub check_target : Url → Result HttpError (Unit {0})
  check_target url =
      if not (text_eq url.protocol (text "https:")) && not (text_eq url.protocol (text "http:"))
      then err only_http
      else if not (is_blank url.username) || not (is_blank url.password)
      then err embedded_credentials
      else assert_literal_host_is_allowed url

  abbrev vet_found : Url → Option (List LookupAddress) → Result HttpError (Unit {0})
  vet_found url none = ok tt
  vet_found url (some found) =
      if any (λ entry. is_allowed_address entry.address) found
      then ok tt
      else err (private_address url.hostname)

  abbrev vet_url : (Text → Option (List LookupAddress)) → Option Url → Result HttpError (Unit {0})
  vet_url resolve none = err not_a_url
  vet_url resolve (some url) = check_target url >>= (λ passed. vet_found url (resolve url.hostname))

  unfoldable pub assert_target_is_allowed :
      (Text → Option Url)
      → (Text → Option (List LookupAddress))
      → Text
      → Result HttpError (Unit {0})
  assert_target_is_allowed parse_url resolve raw_url = vet_url resolve (parse_url raw_url)

  unfoldable pub read_reply : (Text → Text) → ℕ → TransportReply → Result HttpError (ℕ × Text)
  read_reply decode timeout no_reply = err broken
  read_reply decode timeout silent = err (timed_out timeout)
  read_reply decode timeout (responded status chunks) =
      let body = take 2048 (decode (collect 0 chunks)) in
      if leb 300 status && ltb status 400
      then err (redirect status)
      else if leb 200 status && ltb status 300
      then ok (status, body)
      else err (http_error status (first_line (split_on 10 body)))

  abbrev pub timeout_of : Options → ℕ
  timeout_of options = or_default config.notification_timeout options.timeout_ms

  abbrev pub request_of : Url → Options → HttpRequest
  request_of url options = record {
    method = or_default (text "POST") options.verb;
    url = url;
    timeout = timeout_of options;
    body = options.payload;
  }

  abbrev not_sent : HttpError → Sent
  not_sent e = record { reached = []; outcome = err e }

  module _ (resolve : Text → Option (List LookupAddress))
      (transport : (Text → Bool → Answer) → HttpRequest → Exchange) (decode : Text → Text) where
    -- The client is handed the request and the guarded lookup.
    abbrev pub exchange_with : Url → Options → Sent
    exchange_with url options =
        let request = request_of url options in
        let exchange =
          transport (λ name wants_all. guarded_lookup (resolve name) wants_all) request in
        record {
          reached = exchange.contacted;
          outcome = read_reply decode request.timeout exchange.reply;
        }

    abbrev pub send_checked : Url → Options → Result HttpError (Unit {0}) → Sent
    send_checked url options (err e) = not_sent e
    send_checked url options (ok passed) = exchange_with url options

    abbrev pub send_parsed : Options → Option Url → Sent
    send_parsed options none = not_sent invalid_url
    send_parsed options (some url) = send_checked url options (check_url url)

    unfoldable pub send : (Text → Option Url) → Options → Sent
    send parse_url options = send_parsed options (parse_url options.target)
