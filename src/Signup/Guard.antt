-- ===== src/Signup/Guard.antt =====
-- auth/signup/signup-guard.service.ts, auth/signup/signup-attempts.repository.ts and `domainSuffixes`
-- of auth/signup/disposable-domains.ts. The list of that file, HMAC, and the change of a text to
-- lower case and without space around it are arguments; so is the clock.
use silence_watch.Checks.{or_else}
use silence_watch.Prelude.{
  Bool, List, Option, Text, [], any, false, filter, if◌then◌else◌, join_with, leb, length, ltb, map,
  nat_eq, none, not, option_eq, some, split_on, take, text, text_eq, text_keys, true, ℕ, ◌&&◌, ◌++◌,
  ◌+◌, ◌==◌, ◌||◌, ◌∷◌,
}
use silence_watch.Signup.Network.{address_of}

-- The settings, under the words of the environment: SIGNUP_BLOCKED_EMAIL_DOMAINS,
-- SIGNUP_BLOCK_DISPOSABLE_EMAIL, SIGNUP_MAX_ACCOUNTS_PER_ADDRESS, SIGNUP_MAX_PER_NETWORK_PER_HOUR.
pub record SignupConfig : Type 0 where
  pub blocked_email_domains : List Text
  pub block_disposable_email : Bool
  pub max_accounts_per_address : ℕ
  pub max_per_network_per_hour : ℕ
  pub secret_key : Text
  pub admin_email : Text
  pub signup_enabled : Bool
  pub default_plan : Option Text

pub record Attempt : Type 0 where
  pub network : Text
  pub accepted : Bool
  pub created_at : ℕ

pub record Verification : Type 0 where
  pub identifier : Text
  pub value : Text
  pub expires_at : ℕ

-- The tables; of the users only the column `signup_network` is read.
pub record SignupDb : Type 0 where
  pub attempts : List Attempt
  pub networks : List (Option Text)
  pub links : List Verification

pub record SignupRuntime : Type 0 where
  pub lower : Text → Text
  pub trim : Text → Text
  pub hmac : Text → Text → Text
  pub sha256 : Text → Text
  pub disposable : List Text

abbrev attempt_window_ms : ℕ
attempt_window_ms = 3600000

abbrev week_ms : ℕ
week_ms = 604800000

abbrev pub is_one_of : List Text → Text → Bool
is_one_of domains domain = any (text_eq domain) domains

unfoldable pub suffixes_of : List Text → List Text
suffixes_of [] = []
suffixes_of (l ∷ []) = []
suffixes_of (l ∷ m ∷ labels) = join_with (b'.' ∷ []) (l ∷ m ∷ labels) ∷ suffixes_of (m ∷ labels)

unfoldable pub domain_suffixes : Text → List Text
domain_suffixes domain = suffixes_of (split_on b'.' domain)

-- What stands behind the last `@`.
unfoldable pub after_last_at : Text → Option Text
after_last_at [] = none
after_last_at (c ∷ s) =
    let rest = after_last_at s in
    elim rest [ some t ↦ some t | none ↦ if c == b'@' then some s else none ]

abbrev nonempty : Text → Bool
nonempty [] = false
nonempty (c ∷ s) = true

-- `extraBlocked`, of the constructor.
unfoldable pub extra_blocked : SignupRuntime → SignupConfig → List Text
extra_blocked rt cfg = filter nonempty (map (λ d. rt.lower (rt.trim d)) cfg.blocked_email_domains)

unfoldable pub is_domain_allowed : SignupRuntime → SignupConfig → Text → Bool
is_domain_allowed rt cfg domain =
    nonempty domain
    && not (
        any
          (λ suffix.
            is_one_of (extra_blocked rt cfg) suffix
            || cfg.block_disposable_email && is_one_of rt.disposable suffix)
          (domain_suffixes domain))

unfoldable pub is_email_allowed : SignupRuntime → SignupConfig → Text → Bool
is_email_allowed rt cfg email =
    is_domain_allowed rt cfg (rt.lower (or_else (after_last_at email) email))

unfoldable pub signup_network_of : SignupRuntime → SignupConfig → Option Text → Option Text
signup_network_of rt cfg ip =
    if cfg.max_accounts_per_address == 0
    then none
    else some
        (take 32 (rt.hmac cfg.secret_key (text "silencewatch:signup-network:" ++ address_of ip)))

-- `countFromNetwork` (auth/users/users.repository.ts).
abbrev pub count_from_network : Text → List (Option Text) → ℕ
count_from_network network networks = length (filter (λ n. option_eq n (some network)) networks)

unfoldable pub is_address_within_quota : SignupConfig → Option Text → SignupDb → Bool
is_address_within_quota cfg none db = true
is_address_within_quota cfg (some network) db =
    cfg.max_accounts_per_address == 0
    || ltb (count_from_network network db.networks) cfg.max_accounts_per_address

unfoldable pub count_accepted_since : Text → ℕ → List Attempt → ℕ
count_accepted_since network now attempts = length (
    filter
      (λ (a : Attempt).
        text_eq a.network network && (a.accepted && leb now (a.created_at + attempt_window_ms)))
      attempts)

unfoldable pub is_network_within_quota : SignupConfig → ℕ → Text → SignupDb → Bool
is_network_within_quota cfg now network db =
    cfg.max_per_network_per_hour == 0
    || ltb (count_accepted_since network now db.attempts) cfg.max_per_network_per_hour

unfoldable pub record_attempt : SignupConfig → ℕ → Text → Bool → SignupDb → SignupDb
record_attempt cfg now network accepted db =
    if cfg.max_per_network_per_hour == 0 then db else record db {
      attempts = record { network = network; accepted = accepted; created_at = now } ∷ db.attempts;
    }

unfoldable pub purge_old_attempts : ℕ → SignupDb → SignupDb
purge_old_attempts now db = record db {
  attempts = filter (λ (a : Attempt). not (ltb (a.created_at + week_ms) now)) db.attempts;
}
