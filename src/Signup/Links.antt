-- ===== src/Signup/Links.antt =====
-- The link that creates the account of the administrator.
use silence_watch.Signup.Network.{network_of}
use mathlib.Core.Option.{some-injective}
use silence_watch.Prelude.{
  Bool, Bool-cases, In, List, Option, Option-cases, Text, [], ap, arith, false, filter,
  if◌then◌else◌, inl, inr, nat_eq, none, not, refl, some, subst, sym, text_eq, text_keys, true, ℕ,
  ◌<◌, ◌==◌, ◌∙◌, ◌∷◌, ◌≡◌,
}
use silence_watch.Signup.Guard.{
  SignupConfig, SignupDb, SignupRuntime, Verification, record_attempt, signup_network_of,
}
use silence_watch.Signup.Policy.{
  SignupDecision, SignupRequest, accepts, admin_without_link, allowed, allowed_from, created,
  decide, find_link, identifier_of, live_link, refused, sign_up, spend, spent,
}

module _ (rt : SignupRuntime) (cfg : SignupConfig) where
  find-live :
      (now : ℕ) (token : Text) (vs : List Verification) (v : Verification)
      → find_link rt cfg now token vs ≡ some v
      → In v vs × (live_link rt cfg now token v ≡ true)
  unfolding find_link
  find-live now token [] v h = absurd cc
  find-live now token (x ∷ vs) v h = elim (Bool-cases (live_link rt cfg now token x)) [
    | inl e ↦
        let same : x ≡ v = some-injective x v (rw e at h) in
        (inl same, subst (λ y. live_link rt cfg now token y ≡ true) same e)
    | inr e ↦ let (m, l) = find-live now token vs v (rw e at h) in (inr m, l)
  ]

  find-spent :
      (now : ℕ) (token : Text) (vs : List Verification)
      → find_link rt cfg now token (
          filter (λ (v : Verification). not (text_eq v.identifier (identifier_of rt cfg token))) vs)
        ≡ none
  unfolding find_link
  find-spent now token [] = refl
  find-spent now token (v ∷ vs) = ground (arith, find-spent now token vs)

  record_attempt-links :
      (now : ℕ) (network : Text) (accepted : Bool) (db : SignupDb)
      → (record_attempt cfg now network accepted db).links ≡ db.links
  unfolding record_attempt
  record_attempt-links now network accepted db =
      elim (Bool-cases (cfg.max_per_network_per_hour == 0)) [
        | inl off ↦ rw off refl
        | inr on ↦ rw on refl
      ]

  -- A link opens the address that it was made for, while it lives.
  abbrev pub IsLinkFor : ℕ → Text → Text → Verification → Type 0
  IsLinkFor now token email v =
      (text_eq v.identifier (identifier_of rt cfg token) ≡ true)
      × (now < v.expires_at)
      × (text_eq v.value email ≡ true)

  accepts-link :
      (now : ℕ) (token : Option Text) (email : Text) (db : SignupDb)
      → accepts rt cfg now token email db ≡ true
      → (t : Text) × (token ≡ some t)
        × (v : Verification) × In v db.links
        × IsLinkFor now t (rt.lower email) v
  unfolding accepts
  accepts-link now none email db h = absurd cc
  accepts-link now (some []) email db h = absurd cc
  accepts-link now (some (c ∷ token)) email db h =
      elim (Option-cases (find_link rt cfg now (c ∷ token) db.links)) [
        | inl e ↦ let off = rw e at h in ground arith
        | inr (v, e) ↦
            let (m, l) = find-live now (c ∷ token) db.links v e in
            let live = rw e at h in
            (c ∷ token, refl, v, m, (ground arith, ground arith, ground arith))
      ]

  abbrev is_allowed : SignupDecision → Bool
  is_allowed (allowed plan network) = true
  is_allowed (refused reason) = false

  decide-admin :
      (now : ℕ) (request : SignupRequest) (db : SignupDb)
      → text_eq (rt.lower request.email) cfg.admin_email ≡ true
      → decide rt cfg now request db ≡ (
        db,
        if accepts rt cfg now request.setup_token (rt.lower request.email) db
            then allowed_from rt cfg request.ip
            else refused admin_without_link,
      )
  unfolding decide
  decide-admin now request db admin = rw admin refl

  -- The account of the administrator is only ever allowed to a request that carries the token of a
  -- link made for this address, which is in the table and has not run out.
  pub decide-IsLinkFor :
      (now : ℕ) (request : SignupRequest) (db : SignupDb) (plan network : Option Text)
      → text_eq (rt.lower request.email) cfg.admin_email ≡ true
      → (decide rt cfg now request db).1 ≡ allowed plan network
      → (t : Text) × (request.setup_token ≡ some t)
        × (v : Verification) × In v db.links
        × IsLinkFor now t (rt.lower (rt.lower request.email)) v
  decide-IsLinkFor now request db plan network admin h =
      elim (Bool-cases (accepts rt cfg now request.setup_token (rt.lower request.email) db)) [
        | inl e ↦ accepts-link now request.setup_token (rt.lower request.email) db e
        | inr e ↦
            let refusal = ap (λ t. is_allowed t.1) (decide-admin now request db admin) in
            let clash : true ≡ false = sym (ap is_allowed h) ∙ (rw e at refusal) in cc
      ]

  accepts-spent :
      (later : ℕ) (token : Option Text) (email : Text) (db : SignupDb)
      → accepts rt cfg later token email (spent rt cfg token db) ≡ false
  unfolding accepts spend
  accepts-spent later none email db = refl
  accepts-spent later (some []) email db = refl
  accepts-spent later (some (c ∷ token)) email db =
      rw (find-spent later (c ∷ token) db.links) (ground arith)

  created-links :
      (now : ℕ) (request : SignupRequest) (db : SignupDb)
      → (created rt cfg now request db).links ≡ (spent rt cfg request.setup_token db).links
  unfolding created
  created-links now request db =
      record_attempt-links now (network_of request.ip) true (spent rt cfg request.setup_token db)

  accepts-links :
      (later : ℕ) (token : Option Text) (email : Text) (db db' : SignupDb)
      → db'.links ≡ db.links
      → accepts rt cfg later token email db' ≡ accepts rt cfg later token email db
  unfolding accepts
  accepts-links later none email db db' e = refl
  accepts-links later (some []) email db db' e = refl
  accepts-links later (some (c ∷ token)) email db db' e = rw e refl

  -- A token that made the account of the administrator makes no other: the next request for this
  -- address that carries it is refused, whenever it comes.
  pub sign_up-spent :
      (now later : ℕ) (request again : SignupRequest) (db : SignupDb)
      → text_eq (rt.lower request.email) cfg.admin_email ≡ true
      → accepts rt cfg now request.setup_token (rt.lower request.email) db ≡ true
      → text_eq (rt.lower again.email) cfg.admin_email ≡ true
      → again.setup_token ≡ request.setup_token
      → (decide rt cfg later again (sign_up rt cfg now request db)).1 ≡ refused admin_without_link
  unfolding sign_up
  sign_up-spent now later request again db admin live admin_again same =
      let made = record db { networks = signup_network_of rt cfg request.ip ∷ db.networks } in
      let after = created rt cfg now request made in
      let used : accepts rt cfg later again.setup_token (rt.lower again.email) after ≡ false =
        accepts-links later again.setup_token (rt.lower again.email)
          (spent rt cfg request.setup_token made) after (created-links now request made)
        ∙ ap
            (λ t.
              accepts rt cfg later t (rt.lower again.email) (spent rt cfg request.setup_token made))
            same
        ∙ accepts-spent later request.setup_token (rt.lower again.email) made in
      rw (decide-admin now request db admin)
        (rw live (rw (decide-admin later again after admin_again) (rw used refl)))
