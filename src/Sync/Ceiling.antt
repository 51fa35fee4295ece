-- ===== src/Sync/Ceiling.antt =====
-- How many checks a sync creates.
use silence_watch.Sync.Declaring.{SyncError, SyncRequest, declared_rows, sync_within_quota}
use silence_watch.Schedule.{Cron}
use silence_watch.Prelude.{
  Bool, Bool-cases, In, In-any, List, Option, Option-cases, Result, Result-cases, Text, [], any, ap,
  arith, drop, err, false, filter, if◌then◌else◌, inl, inr, leb, length, length-append, length-map,
  map, nat_eq, none, not, ok, refl, some, subst, suc, text_eq, text_eq_refl, text_keys, true, zero,
  ℕ, ◌&&◌, ◌++◌, ◌+◌, ◌==◌, ◌∙◌, ◌∷◌, ◌≡◌, ◌≤◌, ◌⊎◌,
}
use silence_watch.Tables.{Check}
use silence_watch.Sync.{
  SyncRow, apply_check_quota, find_existing_keys, new_declared, or_empty, orphan, orphan_scope,
  orphaned, same_check, skipped_of, text_option_eq, update_declared, upsert, upsert_row,
  upsert_rows,
}

abbrev in_keys : List Text → Text → Bool
in_keys keys k = any (text_eq k) keys

-- Of the keys in `new_keys` all but the first `n` are held back.
count-kept :
    (p : Text → Bool) (held : List Text) (n : ℕ) (keys : List Text)
    → ((k : Text) → In k (drop n (filter p keys)) → in_keys held k ≡ true)
    → length (filter (λ k. p k && not (in_keys held k)) keys) ≤ n
count-kept p held n [] h = omega arith
count-kept p held zero (k ∷ ks) h = elim (Bool-cases (p k)) [
  | inr old ↦ rw old (count-kept p held zero ks (rw old at h))
  | inl fresh ↦
      let e : (j : Text) → In j (k ∷ filter p ks) → in_keys held j ≡ true = rw fresh at h in
      rw fresh (rw (e k (inl refl)) (count-kept p held zero ks (λ j m. e j (inr m))))
]
count-kept p held (suc n) (k ∷ ks) h = elim (Bool-cases (p k)) [
  | inr old ↦ rw old (count-kept p held (suc n) ks (rw old at h))
  | inl fresh ↦
      let e : (j : Text) → In j (drop n (filter p ks)) → in_keys held j ≡ true = rw fresh at h in
      let rest = count-kept p held n ks e in
      elim (Bool-cases (in_keys held k)) [
        | inl there ↦ rw fresh (rw there (omega (arith, rest)))
        | inr free ↦ rw fresh (rw free (omega (arith, rest)))
      ]
]

text_eq_comm : (a b : Text) → text_eq a b ≡ text_eq b a
text_eq_comm [] [] = refl
text_eq_comm [] (y ∷ ys) = refl
text_eq_comm (x ∷ xs) [] = refl
text_eq_comm (x ∷ xs) (y ∷ ys) = ground (arith, text_eq_comm xs ys)

or_empty-same :
    (a b : Option Text) → text_option_eq a b ≡ true → text_eq (or_empty a) (or_empty b) ≡ true
or_empty-same none none h = refl
or_empty-same none (some b) h = absurd cc
or_empty-same (some a) none h = absurd cc
or_empty-same (some a) (some b) h = h

known-head :
    (k key : Text) (rest : List Text) (known b : Bool)
    → in_keys (if known then k ∷ rest else rest) key ≡ true
    → (in_keys rest key ≡ true → b ≡ true)
    → ((known ≡ true) × (text_eq k key ≡ true)) ⊎ (b ≡ true)
known-head k key rest false b h e = inr (e h)
known-head k key rest true b h e = elim (Bool-cases (text_eq key k)) [
  | inl same ↦ inl (refl, text_eq_comm k key ∙ same)
  | inr other ↦ inr (e (ground arith))
]

module _ (ping_key_of : ℕ → Text) (now project : ℕ) (environment : Option Text) where
  abbrev exists : List Check → Text → Bool
  exists checks key = any (same_check project environment key) checks

  same_check-update_declared :
      (row : SyncRow) (key : Text) (c : Check) (b : Bool)
      → same_check project environment key (if b then update_declared now row c else c)
        ≡ same_check project environment key c
  unfolding same_check update_declared
  same_check-update_declared row key c true = refl
  same_check-update_declared row key c false = refl

  exists-updated :
      (row : SyncRow) (key : Text) (checks : List Check)
      → exists
          (map
            (λ c. if same_check project environment row.key c then update_declared now row c else c)
            checks)
          key
        ≡ exists checks key
  exists-updated row key [] = refl
  exists-updated row key (c ∷ cs) =
      rw (exists-updated row key cs)
        (rw (same_check-update_declared row key c (same_check project environment row.key c)) refl)

  exists-append :
      (key : Text) (checks : List Check) (c : Check)
      → exists checks key ≡ true
      → exists (checks ++ c ∷ []) key ≡ true
  exists-append key [] c h = absurd cc
  exists-append key (d ∷ ds) c h = ground (arith, exists-append key ds c)

  -- A row creates a check only where there is none, and removes none.
  upsert_row-count :
      (row : SyncRow) (acc : List Check × ℕ)
      → let after = (upsert_row ping_key_of now project environment row acc).0 in
        (length after ≤ length acc.0 + (if exists acc.0 row.key then 0 else 1))
        × ((key : Text) → exists acc.0 key ≡ true → exists after key ≡ true)
  unfolding upsert_row
  upsert_row-count row (checks, next_id) =
      let f = λ (c : Check).
        if same_check project environment row.key c then update_declared now row c else c in
      let fresh = new_declared ping_key_of now next_id project environment row in
      elim (Bool-cases (exists checks row.key)) [
        | inl found ↦
            rw found
              (omega (arith, length-map checks f), λ key h. exists-updated row key checks ∙ h)
        | inr lacking ↦ rw lacking (
          omega (arith, length-append checks (fresh ∷ [])),
          λ key h. exists-append key checks fresh h,
        )
      ]

  upsert_rows-count :
      (base : List Check) (rows : List SyncRow) (acc : List Check × ℕ)
      → ((key : Text) → exists base key ≡ true → exists acc.0 key ≡ true)
      → length (upsert_rows ping_key_of now project environment rows acc).0
        ≤ length acc.0 + length (filter (λ (r : SyncRow). not (exists base r.key)) rows)
  unfolding upsert_rows
  upsert_rows-count base [] acc keeps = omega arith
  upsert_rows-count base (r ∷ rows) acc keeps =
      let (size, kept) = upsert_row-count r acc in
      let rest =
        upsert_rows-count base rows (upsert_row ping_key_of now project environment r acc)
          (λ key h. kept key (keeps key h)) in
      elim (Bool-cases (exists base r.key)) [
        | inl found ↦ rw found (omega (arith, rw (keeps r.key found) at size, rest))
        | inr lacking ↦ rw lacking (omega (arith, one (exists acc.0 r.key), size, rest))
      ]
    where
      one : (b : Bool) → (if b then 0 else 1) ≤ 1
      one true = omega arith
      one false = omega arith

  known-exists :
      (keys : List Text) (checks : List Check) (key : Text)
      → in_keys (find_existing_keys project keys environment checks) key ≡ true
      → exists checks key ≡ true
  unfolding find_existing_keys same_check
  known-exists keys [] key h = absurd cc
  known-exists keys (c ∷ cs) key h =
      let rest : in_keys (find_existing_keys project keys environment cs) key ≡ true
          → exists cs key ≡ true =
        known-exists keys cs key in
      elim (Option-cases c.key) [
        | inl e ↦ rw e (rw (rest (rw e at h)) (ground arith))
        | inr (k, e) ↦
            elim (known-head k key (find_existing_keys project keys environment cs)
              (c.project_id == project
                && (any (text_eq k) keys && text_option_eq c.environment environment))
              (exists cs key) (rw e at h) rest) [
                | inl (known, same) ↦ rw e (
                    rw same
                      (rw (or_empty-same c.environment environment (ground arith)) (ground arith)))
                | inr later ↦ rw later (ground arith)
              ]
      ]

In-drop : (k : Text) (n : ℕ) (keys : List Text) → length keys ≤ n → In k (drop n keys) → ⊥
In-drop k zero [] h m = m
In-drop k zero (x ∷ xs) h m = absurd (omega (arith, h))
In-drop k (suc n) [] h m = m
In-drop k (suc n) (x ∷ xs) h m = In-drop k n xs (omega (arith, h)) m

skipped-held :
    (fresh : List Text) (n : ℕ) (k : Text)
    → In k (drop n fresh)
    → in_keys (skipped_of fresh (some n)) k ≡ true
skipped-held fresh n k m = elim (Bool-cases (leb (length fresh) n)) [
  | inl fits ↦ absurd (In-drop k n fresh (ground arith) m)
  | inr over ↦ rw over (In-any (text_eq k) k (drop n fresh) m (text_eq_refl k))
]

-- Rows, counted by their keys.
count-keys :
    (p q held : Text → Bool) (rows : List SyncRow)
    → ((k : Text) → q k ≡ true → p k ≡ true)
    → length
        (filter (λ (r : SyncRow). not (p r.key)) (filter (λ (r : SyncRow). not (held r.key)) rows))
      ≤ length (filter (λ k. not (q k) && not (held k)) (map (λ (r : SyncRow). r.key) rows))
count-keys p q held [] h = omega arith
count-keys p q held (r ∷ rows) h =
    let rest = count-keys p q held rows h in
    elim (Bool-cases (held r.key)) [
      | inl kept_back ↦ elim (Bool-cases (q r.key)) [
        | inl known ↦ rw kept_back (rw known rest)
        | inr fresh ↦ rw kept_back (rw fresh rest)
      ]
      | inr free ↦ elim (Bool-cases (q r.key)) [
        | inl known ↦ rw free (rw known (rw (h r.key known) rest))
        | inr fresh ↦ elim (Bool-cases (p r.key)) [
          | inl there ↦ rw free (rw fresh (rw there (omega (arith, rest))))
          | inr absent ↦ rw free (rw fresh (rw absent (omega (arith, rest))))
        ]
      ]
    ]

length-orphan_scope :
    (now project : ℕ) (environment : Option Text) (scope : Option (List Text)) (checks : List Check)
    → length (orphan_scope now project environment scope checks) ≡ length checks
unfolding orphan
length-orphan_scope now project environment none checks = refl
length-orphan_scope now project environment (some keys) checks = length-map checks (λ c.
    if orphaned project environment keys c
    then record c { orphaned_at = some now; updated_at = now }
    else c)

module _ (next : Cron) (normalise lower sha256 fallback : Text → Text) (ping_key_of : ℕ → Text)
    (now project : ℕ) where
  accepted-count :
      (environment : Option Text) (remaining : ℕ) (rows : List SyncRow) (scope : Option (List Text))
      (acc : List Check × ℕ)
      → let skipped = apply_check_quota project environment (some remaining) rows acc.0 in
        length
          (upsert ping_key_of now project environment
            (filter (λ (r : SyncRow). not (in_keys skipped r.key)) rows)
            scope
            acc).0
        ≤ length acc.0 + remaining
  unfolding upsert apply_check_quota
  accepted-count environment remaining rows scope acc =
      let keys = map (λ (r : SyncRow). r.key) rows in
      let known : Text → Bool = in_keys (find_existing_keys project keys environment acc.0) in
      let fresh = filter (λ k. not (known k)) keys in
      let held = skipped_of fresh (some remaining) in
      let accepted = filter (λ (r : SyncRow). not (in_keys held r.key)) rows in
      let after = upsert_rows ping_key_of now project environment accepted acc in
      omega (
        arith,
        length-orphan_scope now project environment scope after.0,
        upsert_rows-count ping_key_of now project environment acc.0 accepted acc (λ key h. h),
        count-keys (exists ping_key_of now project environment acc.0) known (in_keys held) rows
            (known-exists ping_key_of now project environment keys acc.0),
        count-kept (λ k. not (known k)) held remaining keys (skipped-held fresh remaining),
      )

  abbrev count_after : Result SyncError (List Text × (List Check × ℕ)) → ℕ
  count_after (err e) = 0
  count_after (ok (skipped, after)) = length after.0

  -- A sync that finds room for `remaining` checks creates no more than so many, whatever the
  -- payload declares.
  pub sync_within_quota-ceiling :
      (remaining : ℕ) (request : SyncRequest) (acc : List Check × ℕ) (skipped : List Text)
      (after : List Check × ℕ)
      → sync_within_quota next normalise lower sha256 fallback ping_key_of now project
          (some remaining)
          request
          acc
        ≡ ok (skipped, after)
      → length after.0 ≤ length acc.0 + remaining
  unfolding sync_within_quota
  sync_within_quota-ceiling remaining request acc skipped after h =
      elim (Result-cases (
        declared_rows next normalise lower sha256 fallback now request.environment []
          request.declared)) [
            | inr (e, stopped) ↦ absurd (let n = rw stopped at h in cc)
            | inl (rows, made) ↦
                let n = rw made at h in
                let scope =
                  if request.prune then some (map (λ (r : SyncRow). r.key) rows) else none in
                let size = accepted-count request.environment remaining rows scope acc in
                subst (λ m. m ≤ length acc.0 + remaining) (ap count_after n) size
          ]
