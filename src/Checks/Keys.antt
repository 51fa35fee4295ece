-- ===== src/Checks/Keys.antt =====
-- Ping keys that stop working.
use silence_watch.Checks.Pausing.{find-In}
use silence_watch.Cache.Laws.{peek-invalidate}
use mathlib.Core.Option.{some-injective}
use silence_watch.Cache.{invalidate, load, peek}
use silence_watch.Checks.{
  ChecksDb, find_by_id, remove, replace_ping_key, rotate_ping_key, write_row,
}
use silence_watch.Tables.{Check}
use silence_watch.Prelude.{
  Bool-cases, In, In-any, List, Text, [], any, ap, arith, false, filter, inl, inr, nat_eq, none,
  not, refl, some, subst, sym, text_eq, text_eq_iff, text_eq_refl, text_keys, true, ℕ, ◌==◌, ◌∙◌,
  ◌∷◌, ◌≡◌,
}

-- A key that no check has is not found.
load-none :
    (key : Text) (cs : List Check)
    → any (λ (c : Check). text_eq c.ping_key key) cs ≡ false
    → load cs key ≡ none
unfolding load
load-none key [] h = refl
load-none key (c ∷ cs) h = ground (arith, load-none key cs)

-- The key belongs to the check with this id alone.
abbrev pub IsOwnKey : Text → ℕ → List Check → Type 0
IsOwnKey key id cs = (c : Check) → In c cs → text_eq c.ping_key key ≡ true → c.id ≡ id

none-of_owner :
    (now : ℕ) (key fresh : Text) (id : ℕ) (cs : List Check)
    → text_eq fresh key ≡ false
    → IsOwnKey key id cs
    → any (λ (c : Check). text_eq c.ping_key key) (write_row id (replace_ping_key now fresh) cs)
      ≡ false
unfolding replace_ping_key
none-of_owner now key fresh id [] new_one own = refl
none-of_owner now key fresh id (c ∷ cs) new_one own =
    ground
      (arith, own c (inl refl), none-of_owner now key fresh id cs new_one (λ d m. own d (inr m)))

load-fresh :
    (now : ℕ) (fresh : Text) (id : ℕ) (c : Check) (cs : List Check)
    → find_by_id id cs ≡ some c
    → any (λ (x : Check). text_eq x.ping_key fresh) cs ≡ false
    → load (write_row id (replace_ping_key now fresh) cs) fresh
      ≡ some (record { id = c.id; schedule = c.schedule })
unfolding load find_by_id replace_ping_key
load-fresh now fresh id c [] found unused = absurd cc
load-fresh now fresh id c (x ∷ cs) found unused = elim (Bool-cases (x.id == id)) [
  | inl e ↦
      let same : x ≡ c = some-injective x c (rw e at found) in
      rw e (
        rw (text_eq_refl fresh)
          (ap (λ (y : Check). some (record { id = y.id; schedule = y.schedule })) same))
  | inr e ↦ rw e (ground (arith, load-fresh now fresh id c cs))
]

fresh-apart :
    (fresh : Text) (c : Check) (cs : List Check)
    → In c cs
    → any (λ (x : Check). text_eq x.ping_key fresh) cs ≡ false
    → text_eq fresh c.ping_key ≡ false
fresh-apart fresh c cs m unused = elim (Bool-cases (text_eq fresh c.ping_key)) [
  | inr e ↦ e
  | inl e ↦
      let same : text_eq c.ping_key fresh ≡ true =
        (text_eq_iff c.ping_key fresh).1 (sym ((text_eq_iff fresh c.ping_key).0 e)) in
      let clash : true ≡ false =
        sym (In-any (λ (x : Check). text_eq x.ping_key fresh) c cs m same) ∙ unused in
      cc
]

-- A new ping key that no check has, for a check that shares its key with no other: at once the old
-- key is found neither in the table nor in the cache, and the new one is the key of the check, of
-- which the cache has no older answer.
pub rotate_ping_key-replaced :
    (now later check_id : ℕ) (fresh : Text) (db : ChecksDb) (c : Check)
    → find_by_id check_id db.tables.checks ≡ some c
    → IsOwnKey c.ping_key c.id db.tables.checks
    → any (λ (x : Check). text_eq x.ping_key fresh) db.tables.checks ≡ false
    → let after = (rotate_ping_key now fresh check_id db).0 in
      (load after.tables.checks c.ping_key ≡ none)
      × (peek after.cache c.ping_key later ≡ none)
      × (load after.tables.checks fresh ≡ some (record { id = c.id; schedule = c.schedule }))
      × (peek after.cache fresh later ≡ none)
unfolding rotate_ping_key
rotate_ping_key-replaced now later check_id fresh db c found own unused =
    let (m, i) = find-In check_id c db.tables.checks found in
    let apart = fresh-apart fresh c db.tables.checks m unused in
    let once = invalidate db.cache c.ping_key in
    rw found (
      load-none c.ping_key (write_row c.id (replace_ping_key now fresh) db.tables.checks)
          (none-of_owner now c.ping_key fresh c.id db.tables.checks apart own),
      ground (
        arith,
        peek-invalidate once fresh c.ping_key later,
        peek-invalidate db.cache c.ping_key c.ping_key later,
        text_eq_refl c.ping_key,
      ),
      subst
          (λ k.
            load (write_row k (replace_ping_key now fresh) db.tables.checks) fresh
            ≡ some (record { id = c.id; schedule = c.schedule }))
          (sym i) (load-fresh now fresh check_id c db.tables.checks found unused),
      ground (arith, peek-invalidate once fresh fresh later, text_eq_refl fresh),
    )

find-removed :
    (id : ℕ) (cs : List Check) → find_by_id id (filter (λ (x : Check). not (x.id == id)) cs) ≡ none
unfolding find_by_id
find-removed id [] = refl
find-removed id (c ∷ cs) = ground (arith, find-removed id cs)

load-removed :
    (key : Text) (id : ℕ) (cs : List Check)
    → IsOwnKey key id cs
    → load (filter (λ (x : Check). not (x.id == id)) cs) key ≡ none
unfolding load
load-removed key id [] own = refl
load-removed key id (c ∷ cs) own =
    ground (arith, own c (inl refl), load-removed key id cs (λ d m. own d (inr m)))

-- A check that is deleted, where no other shares its key, is found neither by its id nor by its
-- key, and the cache has no answer for the key.
pub remove-gone :
    (later check_id : ℕ) (db : ChecksDb) (c : Check)
    → find_by_id check_id db.tables.checks ≡ some c
    → IsOwnKey c.ping_key c.id db.tables.checks
    → let after = (remove check_id db).0 in
      (find_by_id check_id after.tables.checks ≡ none)
      × (load after.tables.checks c.ping_key ≡ none)
      × (peek after.cache c.ping_key later ≡ none)
unfolding remove
remove-gone later check_id db c found own = rw found (
  subst (λ k. find_by_id k (filter (λ (x : Check). not (x.id == c.id)) db.tables.checks) ≡ none)
      (find-In check_id c db.tables.checks found).1 (find-removed c.id db.tables.checks),
  load-removed c.ping_key c.id db.tables.checks own,
  ground (arith, peek-invalidate db.cache c.ping_key c.ping_key later, text_eq_refl c.ping_key),
)
