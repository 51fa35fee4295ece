-- ===== src/Signup/Ceiling.antt =====
-- How many accounts one line may have.
use silence_watch.Prelude.{
  All, Bool, Bool-cases, List, Option, Option-cases, Text, [], ap, arith, false, if◌then◌else◌, inl,
  inr, nat_eq, none, refl, some, subst, suc, sym, take, text, text_eq, text_eq_iff, text_keys, true,
  ℕ, ◌++◌, ◌<◌, ◌==◌, ◌∙◌, ◌∷◌, ◌≡◌, ◌≤◌,
}
use silence_watch.Signup.Network.{address_of, network_of}
use silence_watch.Signup.Guard.{
  SignupConfig, SignupDb, SignupRuntime, count_from_network, is_address_within_quota,
  record_attempt, signup_network_of,
}
use silence_watch.Signup.Policy.{
  SignupRequest, after_rules, check_abuse_rules, created, decide, refused, sign_up, signup_closed,
  spend, spent,
}

-- Requests, each with its instant, one after another.
unfoldable pub sign_ups :
    SignupRuntime → SignupConfig → List (ℕ × SignupRequest) → SignupDb → SignupDb
sign_ups rt cfg [] db = db
sign_ups rt cfg ((now, request) ∷ rest) db = sign_ups rt cfg rest (sign_up rt cfg now request db)

module _ (rt : SignupRuntime) (cfg : SignupConfig) (key : Text) where
  record_attempt-networks :
      (now : ℕ) (network : Text) (accepted : Bool) (db : SignupDb)
      → (record_attempt cfg now network accepted db).networks ≡ db.networks
  unfolding record_attempt
  record_attempt-networks now network accepted db =
      elim (Bool-cases (cfg.max_per_network_per_hour == 0)) [
        | inl off ↦ rw off refl
        | inr on ↦ rw on refl
      ]

  spent-networks :
      (token : Option Text) (db : SignupDb) → (spent rt cfg token db).networks ≡ db.networks
  unfolding spend
  spent-networks none db = refl
  spent-networks (some token) db = refl

  created-networks :
      (now : ℕ) (request : SignupRequest) (db : SignupDb)
      → (created rt cfg now request db).networks ≡ db.networks
  unfolding created
  created-networks now request db =
      record_attempt-networks now (network_of request.ip) true (spent rt cfg request.setup_token db)
      ∙ spent-networks request.setup_token db

  room-below :
      (db : SignupDb)
      → 0 < cfg.max_accounts_per_address
      → is_address_within_quota cfg (some key) db ≡ true
      → count_from_network key db.networks < cfg.max_accounts_per_address
  unfolding is_address_within_quota
  room-below db on room = ground arith

  -- Room for one more account of a line, in a line that the rules let through.
  count-room :
      (own : Text) (db : SignupDb)
      → 0 < cfg.max_accounts_per_address
      → is_address_within_quota cfg (some own) db ≡ true
      → count_from_network key db.networks ≤ cfg.max_accounts_per_address
      → count_from_network key (some own ∷ db.networks) ≤ cfg.max_accounts_per_address
  unfolding is_address_within_quota
  count-room own db on room h = elim (Bool-cases (text_eq own key)) [
    | inr other ↦ rw other h
    | inl mine ↦
        let here : is_address_within_quota cfg (some key) db ≡ true =
          subst (λ k. is_address_within_quota cfg (some k) db ≡ true) ((text_eq_iff own key).0 mine)
            room in
        let one_more : count_from_network key (some own ∷ db.networks)
            ≡ suc (count_from_network key db.networks) =
          rw mine refl in
        omega (arith, one_more, room-below db on here)
  ]

  count-allowed :
      (ip : Option Text) (db : SignupDb)
      → 0 < cfg.max_accounts_per_address
      → is_address_within_quota cfg (signup_network_of rt cfg ip) db ≡ true
      → count_from_network key db.networks ≤ cfg.max_accounts_per_address
      → count_from_network key (signup_network_of rt cfg ip ∷ db.networks)
        ≤ cfg.max_accounts_per_address
  unfolding signup_network_of
  count-allowed ip db on room h =
      let own =
        take 32 (rt.hmac cfg.secret_key (text "silencewatch:signup-network:" ++ address_of ip)) in
      let test : (cfg.max_accounts_per_address == 0) ≡ false = ground arith in
      let same : signup_network_of rt cfg ip ≡ some own = rw test refl in
      subst (λ o. count_from_network key (o ∷ db.networks) ≤ cfg.max_accounts_per_address)
        (sym same)
        (count-room own db on (subst (λ o. is_address_within_quota cfg o db ≡ true) same room) h)

  rules-address :
      (now : ℕ) (email : Text) (ip : Option Text) (db : SignupDb)
      → check_abuse_rules rt cfg now email ip db ≡ none
      → is_address_within_quota cfg (signup_network_of rt cfg ip) db ≡ true
  unfolding check_abuse_rules
  rules-address now email ip db h = ground arith

  -- What is decided of anybody but the administrator, where sign-up is open.
  decide-plain :
      (now : ℕ) (request : SignupRequest) (db : SignupDb)
      → text_eq (rt.lower request.email) cfg.admin_email ≡ false
      → cfg.signup_enabled ≡ true
      → decide rt cfg now request db
        ≡ after_rules rt cfg now request.ip db
            (check_abuse_rules rt cfg now (rt.lower request.email) request.ip db)
  unfolding decide
  decide-plain now request db plain opened =
      let rules =
        after_rules rt cfg now request.ip db
          (check_abuse_rules rt cfg now (rt.lower request.email) request.ip db) in
      rw plain (ap (λ b. if b then rules else (db, refused signup_closed)) opened)

  decide-closed :
      (now : ℕ) (request : SignupRequest) (db : SignupDb)
      → text_eq (rt.lower request.email) cfg.admin_email ≡ false
      → cfg.signup_enabled ≡ false
      → decide rt cfg now request db ≡ (db, refused signup_closed)
  unfolding decide
  decide-closed now request db plain closed =
      let rules =
        after_rules rt cfg now request.ip db
          (check_abuse_rules rt cfg now (rt.lower request.email) request.ip db) in
      rw plain (ap (λ b. if b then rules else (db, refused signup_closed)) closed)

  count-sign_up :
      (now : ℕ) (request : SignupRequest) (db : SignupDb)
      → 0 < cfg.max_accounts_per_address
      → text_eq (rt.lower request.email) cfg.admin_email ≡ false
      → count_from_network key db.networks ≤ cfg.max_accounts_per_address
      → count_from_network key (sign_up rt cfg now request db).networks
        ≤ cfg.max_accounts_per_address
  unfolding sign_up
  count-sign_up now request db on plain h =
      let email = rt.lower request.email in
      elim (Bool-cases cfg.signup_enabled) [
        | inr closed ↦ rw (decide-closed now request db plain closed) h
        | inl opened ↦ elim (Option-cases (check_abuse_rules rt cfg now email request.ip db)) [
          | inr (reason, e) ↦
              rw (decide-plain now request db plain opened)
                (rw e (rw (record_attempt-networks now (network_of request.ip) false db) h))
          | inl e ↦
              let next = record db {
                networks = signup_network_of rt cfg request.ip ∷ db.networks;
              } in
              rw (decide-plain now request db plain opened) (
                rw e (
                  rw (created-networks now request next)
                    (count-allowed request.ip db on (rules-address now email request.ip db e) h)))
        ]
      ]

  -- Where the rule is on, and none of the requests is for the address of the administrator, no
  -- number of requests, one after another, takes a line over the number of accounts it may have.
  pub count-sign_ups :
      (requests : List (ℕ × SignupRequest)) (db : SignupDb)
      → 0 < cfg.max_accounts_per_address
      → All
          (λ (x : ℕ × SignupRequest). text_eq (rt.lower x.1.email) cfg.admin_email ≡ false)
          requests
      → count_from_network key db.networks ≤ cfg.max_accounts_per_address
      → count_from_network key (sign_ups rt cfg requests db).networks ≤ cfg.max_accounts_per_address
  unfolding sign_ups
  count-sign_ups [] db on plain h = h
  count-sign_ups ((now, request) ∷ rest) db on (first, plain) h =
      count-sign_ups rest (sign_up rt cfg now request db) on plain
        (count-sign_up now request db on first h)
