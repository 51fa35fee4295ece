-- ===== src/Signup/Domains.antt =====
-- Subdomains of a domain that is blocked.
use silence_watch.Prelude.{
  ==_iff, Bool-cases, In, In-any, List, Text, [], any, ap, arith, cons_head, contains, false, inl,
  inr, join_with, nat_eq, refl, split_on, subst, sym, text_keys, true, ℕ, ◌&&◌, ◌++◌, ◌==◌, ◌||◌,
  ◌∙◌, ◌∷◌, ◌≡◌,
}
use silence_watch.Signup.Guard.{
  SignupConfig, SignupRuntime, domain_suffixes, extra_blocked, is_domain_allowed, is_one_of,
  suffixes_of,
}

split-nonempty : (sep : ℕ) (s : Text) → (p : Text) × (ps : List Text) × (split_on sep s ≡ p ∷ ps)
unfolding split_on
split-nonempty sep [] = ([], [], refl)
split-nonempty sep (c ∷ s) =
    let (p, ps, e) = split-nonempty sep s in
    elim (Bool-cases (c == sep)) [
      | inl here ↦ ([], split_on sep s, rw here refl)
      | inr other ↦ (c ∷ p, ps, rw other (rw e refl))
    ]

split-append :
    (sep : ℕ) (s t : Text) → split_on sep (s ++ sep ∷ t) ≡ split_on sep s ++ split_on sep t
unfolding split_on
split-append sep [] t = ground arith
split-append sep (c ∷ s) t =
    let (p, ps, e) = split-nonempty sep s in
    elim (Bool-cases (c == sep)) [
      | inl here ↦ rw here (ap (λ r. [] ∷ r) (split-append sep s t))
      | inr other ↦ rw other (ap (cons_head c) (split-append sep s t) ∙ rw e refl)
    ]

join-cons :
    (sep : Text) (c : ℕ) (p : Text) (ps : List Text)
    → join_with sep ((c ∷ p) ∷ ps) ≡ c ∷ join_with sep (p ∷ ps)
unfolding join_with
join-cons sep c p [] = refl
join-cons sep c p (q ∷ ps) = refl

join-split : (sep : ℕ) (s : Text) → join_with (sep ∷ []) (split_on sep s) ≡ s
unfolding split_on join_with
join-split sep [] = refl
join-split sep (c ∷ s) =
    let (p, ps, e) = split-nonempty sep s in
    elim (Bool-cases (c == sep)) [
      | inl here ↦ rw here (
          rw e (
            ap (λ r. sep ∷ r) (ap (join_with (sep ∷ [])) (sym e) ∙ join-split sep s)
            ∙ ap (λ k. k ∷ s) (sym ((==_iff c sep).0 here))))
      | inr other ↦ rw other (
          rw e (
            join-cons (sep ∷ []) c p ps
            ∙ ap (λ r. c ∷ r) (ap (join_with (sep ∷ [])) (sym e) ∙ join-split sep s)))
    ]

-- The suffixes of a name are among those of each name below it.
suffixes-below :
    (xs : List Text) (y z : Text) (ys : List Text)
    → In (join_with (b'.' ∷ []) (y ∷ z ∷ ys)) (suffixes_of (xs ++ y ∷ z ∷ ys))
unfolding suffixes_of
suffixes-below [] y z ys = inl refl
suffixes-below (x ∷ []) y z ys = inr (inl refl)
suffixes-below (x ∷ w ∷ xs) y z ys = inr (suffixes-below (w ∷ xs) y z ys)

split-two :
    (sep : ℕ) (s : Text)
    → contains sep s ≡ true
    → (y : Text) × (z : Text) × (ys : List Text) × (split_on sep s ≡ y ∷ z ∷ ys)
unfolding split_on
split-two sep [] h = absurd cc
split-two sep (c ∷ s) h =
    let (p, ps, e) = split-nonempty sep s in
    elim (Bool-cases (c == sep)) [
      | inl here ↦ ([], p, ps, rw here (ap (λ r. [] ∷ r) e))
      | inr other ↦
          let (y, z, ys, f) = split-two sep s (ground arith) in (c ∷ y, z, ys, rw other (rw f refl))
    ]

module _ (rt : SignupRuntime) (cfg : SignupConfig) where
  suffix-blocked :
      (domain suffix : Text)
      → In suffix (domain_suffixes domain)
      → is_one_of (extra_blocked rt cfg) suffix ≡ true
      → is_domain_allowed rt cfg domain ≡ false
  unfolding is_domain_allowed
  suffix-blocked domain suffix m h =
      let test = λ (s : Text).
        is_one_of (extra_blocked rt cfg) s
        || cfg.block_disposable_email && is_one_of rt.disposable s in
      let found : any test (domain_suffixes domain) ≡ true =
        In-any test suffix (domain_suffixes domain) m (rw h refl) in
      rw found (ground arith)

  -- A domain of at least two labels that the operator blocks is refused, and so is every domain
  -- below it.
  pub is_domain_allowed-blocked :
      (sub domain : Text)
      → contains b'.' domain ≡ true
      → is_one_of (extra_blocked rt cfg) domain ≡ true
      → (is_domain_allowed rt cfg domain ≡ false)
        × (is_domain_allowed rt cfg (sub ++ b'.' ∷ domain) ≡ false)
  unfolding domain_suffixes
  is_domain_allowed-blocked sub domain dots h =
      let (y, z, ys, e) = split-two b'.' domain dots in
      let whole : join_with (b'.' ∷ []) (y ∷ z ∷ ys) ≡ domain =
        ap (join_with (b'.' ∷ [])) (sym e) ∙ join-split b'.' domain in
      let below = λ (xs : List Text).
        subst (λ d. In d (suffixes_of (xs ++ y ∷ z ∷ ys))) whole (suffixes-below xs y z ys) in
      (
        suffix-blocked domain domain
            (subst (λ labels. In domain (suffixes_of labels)) (sym e) (below [])) h,
        suffix-blocked (sub ++ b'.' ∷ domain) domain
            (subst (λ labels. In domain (suffixes_of labels))
              (sym (split-append b'.' sub domain ∙ ap (λ ls. split_on b'.' sub ++ ls) e))
              (below (split_on b'.' sub)))
            h,
      )
