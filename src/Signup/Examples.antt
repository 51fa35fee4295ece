-- ===== src/Signup/Examples.antt =====
-- Addresses, and a runtime that folds nothing and hashes a text to itself.
use silence_watch.Signup.Links.{sign_up-spent}
use silence_watch.Signup.Ceiling.{count-sign_ups, sign_ups}
use silence_watch.Signup.Buckets.{IsIpv4, dotted, network_of-same}
use silence_watch.Prelude.{
  [], arith, false, join_with, nat_eq, none, refl, some, split_on, text, text_keys, true, ◌↔◌, ◌∷◌,
  ◌≡◌, ◌≤◌,
}
use silence_watch.Signup.Network.{
  expand_ipv6, halves_of, is_ipv4, network_of, strip_zeros, unknown, unmapped,
}
use silence_watch.Signup.Guard.{
  SignupConfig, SignupDb, SignupRuntime, after_last_at, count_from_network, domain_suffixes,
  extra_blocked, is_domain_allowed, is_email_allowed, signup_network_of, suffixes_of,
}
use silence_watch.Signup.Policy.{
  SignupRequest, accepts, admin_without_link, allowed, decide, find_link, refused, sign_up,
}

a_line_of_ipv6 : network_of (some (text "2001:0DB8::1")) ≡ text "2001:db8:0::/48"
unfolding network_of unmapped expand_ipv6 halves_of strip_zeros split_on join_with
a_line_of_ipv6 = refl

out_of_range : network_of (some (text "999.1.1.1")) ≡ unknown
unfolding network_of unmapped is_ipv4 split_on
out_of_range = refl

abbrev abcd : IsIpv4 (text "203") (text "0") (text "113") (text "4")
abcd = (refl, refl, refl, refl)

abbrev neighbour : IsIpv4 (text "203") (text "0") (text "113") (text "250")
neighbour = (refl, refl, refl, refl)

network_of-same_example :
    (network_of (some (dotted (text "203") (text "0") (text "113") (text "4")))
      ≡ network_of (some (dotted (text "203") (text "0") (text "113") (text "250"))))
    ↔ ((text "203" ≡ text "203") × (text "0" ≡ text "0") × (text "113" ≡ text "113"))
network_of-same_example =
    network_of-same (text "203") (text "0") (text "113") (text "4") (text "203") (text "0")
      (text "113") (text "250") abcd neighbour

abbrev rt : SignupRuntime
rt = record {
  lower = λ s. s;
  trim = λ s. s;
  hmac = λ key s. s;
  sha256 = λ s. s;
  disposable = text "mailinator.com" ∷ [];
}

abbrev cfg : SignupConfig
cfg = record {
  blocked_email_domains = text "example.org" ∷ [];
  block_disposable_email = true;
  max_accounts_per_address = 1;
  max_per_network_per_hour = 5;
  secret_key = text "k";
  admin_email = text "root@host.com";
  signup_enabled = true;
  default_plan = none;
}

abbrev db : SignupDb
db = record {
  attempts = [];
  networks = [];
  links =
      record { identifier = text "setup:abc"; value = text "root@host.com"; expires_at = 9000 }
      ∷ [];
}

abbrev somebody : SignupRequest
somebody = record {
  email = text "ann@site.com";
  ip = some (text "203.0.113.4");
  setup_token = none;
}

abbrev root : SignupRequest
root = record { email = text "root@host.com"; ip = none; setup_token = some (text "abc") }

below_a_disposable_one : is_email_allowed rt cfg (text "a@x.mailinator.com") ≡ false
unfolding is_email_allowed after_last_at is_domain_allowed domain_suffixes suffixes_of split_on
    join_with extra_blocked
below_a_disposable_one = refl

count-sign_ups_example :
    count_from_network
      (text "k")
      (sign_ups rt cfg ((1000, somebody) ∷ (2000, somebody) ∷ []) db).networks
    ≤ 1
count-sign_ups_example =
    count-sign_ups rt cfg (text "k") ((1000, somebody) ∷ (2000, somebody) ∷ []) db (omega arith)
      (refl, (refl, tt)) (omega arith)

live : accepts rt cfg 1000 (some (text "abc")) (text "root@host.com") db ≡ true
unfolding accepts find_link
live = refl

allowed_root : (decide rt cfg 1000 root db).1 ≡ allowed none (signup_network_of rt cfg none)
unfolding decide accepts find_link
allowed_root = refl

sign_up-spent_example :
    (decide rt cfg 2000 root (sign_up rt cfg 1000 root db)).1 ≡ refused admin_without_link
sign_up-spent_example = sign_up-spent rt cfg 1000 2000 root root db refl live refl refl
