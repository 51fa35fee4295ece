-- ===== src/Signup/Policy.antt =====
-- auth/signup/signup-policy.service.ts and auth/signup/setup-link.service.ts. The audit entries, the
-- log and the first project of an account are left out. `sign_up` is an account as Better Auth
-- creates it: with the hooks before and after of auth/better-auth/auth.factory.ts.
use silence_watch.Prelude.{
  Bool, List, Option, Text, [], false, filter, if◌then◌else◌, ltb, nat_eq, none, not, some, text,
  text_eq, text_keys, true, ℕ, ◌&&◌, ◌++◌, ◌∷◌,
}
use silence_watch.Signup.Network.{network_of}
use silence_watch.Signup.Guard.{
  SignupConfig, SignupDb, SignupRuntime, Verification, is_address_within_quota, is_email_allowed,
  is_network_within_quota, record_attempt, signup_network_of,
}

pub data SignupRefusal : Type 0 where
  admin_without_link signup_closed email_provider address_quota network_quota : SignupRefusal

pub data SignupStatus : Type 0 where
  forbidden bad_request too_many_requests : SignupStatus

pub record SignupRequest : Type 0 where
  pub email : Text
  pub ip : Option Text
  pub setup_token : Option Text

pub data SignupDecision : Type 0 where
  allowed : Option Text → Option Text → SignupDecision
  refused : SignupRefusal → SignupDecision

-- The status that goes with a reason.
abbrev pub refusal_status : SignupRefusal → SignupStatus
refusal_status admin_without_link = forbidden
refusal_status signup_closed = forbidden
refusal_status email_provider = bad_request
refusal_status address_quota = too_many_requests
refusal_status network_quota = too_many_requests

module _ (rt : SignupRuntime) (cfg : SignupConfig) where
  abbrev pub identifier_of : Text → Text
  identifier_of token = text "setup:" ++ rt.sha256 token

  abbrev pub live_link : ℕ → Text → Verification → Bool
  live_link now token v = text_eq v.identifier (identifier_of token) && ltb now v.expires_at

  -- `findFirst`.
  unfoldable pub find_link : ℕ → Text → List Verification → Option Verification
  find_link now token [] = none
  find_link now token (v ∷ vs) =
      let rest = find_link now token vs in if live_link now token v then some v else rest

  abbrev pub is_for : Text → Option Verification → Bool
  is_for email none = false
  is_for email (some row) = text_eq row.value (rt.lower email)

  unfoldable pub accepts : ℕ → Option Text → Text → SignupDb → Bool
  accepts now none email db = false
  accepts now (some []) email db = false
  accepts now (some (c ∷ token)) email db =
      text_eq (rt.lower email) cfg.admin_email && is_for email (find_link now (c ∷ token) db.links)

  unfoldable pub spend : Text → SignupDb → SignupDb
  spend token db = record db {
    links =
        filter (λ (v : Verification). not (text_eq v.identifier (identifier_of token))) db.links;
  }

  unfoldable pub purge_expired : ℕ → SignupDb → SignupDb
  purge_expired now db = record db {
    links = filter (λ (v : Verification). not (ltb v.expires_at now)) db.links;
  }

  abbrev pub allowed_from : Option Text → SignupDecision
  allowed_from ip = allowed cfg.default_plan (signup_network_of rt cfg ip)

  unfoldable pub check_abuse_rules : ℕ → Text → Option Text → SignupDb → Option SignupRefusal
  check_abuse_rules now email ip db =
      if not (is_email_allowed rt cfg email)
      then some email_provider
      else if not (is_address_within_quota cfg (signup_network_of rt cfg ip) db)
      then some address_quota
      else if not (is_network_within_quota cfg now (network_of ip) db)
      then some network_quota
      else none

  abbrev pub after_rules :
      ℕ → Option Text → SignupDb → Option SignupRefusal → SignupDb × SignupDecision
  after_rules now ip db none = (db, allowed_from ip)
  after_rules now ip db (some reason) =
      (record_attempt cfg now (network_of ip) false db, refused reason)

  unfoldable pub decide : ℕ → SignupRequest → SignupDb → SignupDb × SignupDecision
  decide now request db =
      let email = rt.lower request.email in
      if text_eq email cfg.admin_email
      then (
        db,
        if accepts now request.setup_token email db
            then allowed_from request.ip
            else refused admin_without_link,
      )
      else if cfg.signup_enabled
      then after_rules now request.ip db (check_abuse_rules now email request.ip db)
      else (db, refused signup_closed)

  abbrev pub spent : Option Text → SignupDb → SignupDb
  spent none db = db
  spent (some token) db = spend token db

  unfoldable pub created : ℕ → SignupRequest → SignupDb → SignupDb
  created now request db =
      record_attempt cfg now (network_of request.ip) true (spent request.setup_token db)

  abbrev pub account_of : ℕ → SignupRequest → SignupDb × SignupDecision → SignupDb
  account_of now request (db, refused reason) = db
  account_of now request (db, allowed plan network) =
      created now request (record db { networks = network ∷ db.networks })

  unfoldable pub sign_up : ℕ → SignupRequest → SignupDb → SignupDb
  sign_up now request db = account_of now request (decide now request db)
