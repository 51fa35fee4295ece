-- ===== src/Queue/Attempts.antt =====
-- No alert is attempted more often than the configuration allows.
use silence_watch.Tables.Members.{In-mem, mem-In}
use silence_watch.Queue.{Locked}
use mathlib.Core.List.{append_assoc}
use silence_watch.Prelude.{
  All, All-In, All-of_In, Bool-cases, In, In-append_left, In-append_right, In-filter, In-map,
  In-of_map, List, Option, Text, [], ap, arith, false, filter, if◌then◌else◌, inl, inr, ltb, map,
  nat_eq, none, refl, some, subst, sym, text_keys, true, ℕ, ◌++◌, ◌<◌, ◌==◌, ◌∙◌, ◌∷◌, ◌≡◌, ◌≤◌,
}
use silence_watch.Tables.{Db, Delivery, mem, pending}
use silence_watch.Queue.Drain.{
  Config, Counters, Loop, Pass, at_ceiling, claim, claim_row, claimed_ids, contexts, drain,
  drain_row, drain_rows, mark, refusal, refuse, refuse_row, retry_row, sent_row, settle, start_loop,
  update_ids,
}
use silence_watch.Queue.Delivering.{In-claimed_ids}

-- An alert has used up no more than its attempts, and one that waits has at least one left.
abbrev pub Within : ℕ → Delivery → Type 0
Within limit d = (d.attempts ≤ limit) × (d.status ≡ pending → d.attempts < limit)

-- In the middle of a pass: an alert that waits with no attempt left is about to be handled, or has
-- just been delivered.
abbrev Halfway : ℕ → List ℕ → Delivery → Type 0
Halfway limit open_ids d =
    (d.attempts ≤ limit) × (d.status ≡ pending → limit ≤ d.attempts → In d.id open_ids)

claim-Halfway :
    (limit now : ℕ) (ids : List ℕ) (d : Delivery)
    → Within limit d
    → (mem d.id ids ≡ true → d.status ≡ pending)
    → Halfway limit ids (if mem d.id ids then claim_row now d else d)
claim-Halfway limit now ids d w claimed = elim (Bool-cases (mem d.id ids)) [
  | inl taken ↦ rw taken (ground (arith, claimed taken), λ p full. In-mem d.id ids taken)
  | inr free ↦ rw free (w.0, λ p full. absurd (omega (arith, w.1 p)))
]

All-map :
    {A : Type 0} (P Q : A → Type 0) (f : A → A) (xs : List A)
    → ((a : A) → P a → Q (f a))
    → All P xs
    → All Q (map f xs)
All-map P Q f [] h k = tt
All-map P Q f (x ∷ xs) h (k, ks) = (h x k, All-map P Q f xs h ks)

-- Recording what became of one alert takes it off the list of those that are open.
abbrev Closes : ℕ → (Delivery → Delivery) → Type 0
Closes limit f =
    (d : Delivery)
    → d.attempts ≤ limit
    → ((f d).attempts ≤ limit)
      × ((f d).id ≡ d.id)
      × ((f d).status ≡ pending → (f d).attempts < limit)

In-tail : (i x : ℕ) (is : List ℕ) → (i == x) ≡ false → In x (i ∷ is) → In x is
In-tail i x is other (inl e) = absurd (ground arith)
In-tail i x is other (inr m) = m

update-Halfway :
    (limit i : ℕ) (open_ids : List ℕ) (f : Delivery → Delivery)
    → Closes limit f
    → (d : Delivery) → Halfway limit (i ∷ open_ids) d
    → Halfway limit open_ids (if mem d.id (i ∷ []) then f d else d)
update-Halfway limit i open_ids f closes d h = elim (Bool-cases (i == d.id)) [
  | inl this ↦
      let (capped, same, waits) = closes d h.0 in
      rw this (capped, λ p full. absurd (omega (arith, waits p)))
  | inr other ↦ rw other (h.0, λ p full. In-tail i d.id open_ids other (h.1 p full))
]

retry-Closes : (limit now : ℕ) (message : Text) → Closes limit (retry_row limit now message)
unfolding retry_row
retry-Closes limit now message d h = (ground arith, refl, λ p. ground arith)

refuse-Closes : (limit : ℕ) (message : Text) → Closes limit (refuse_row message)
unfolding refuse_row
refuse-Closes limit message d h = (ground arith, refl, λ p. cc)

-- The ids that are open in the loop: those of the rows left, and those delivered.
abbrev open_of : Loop → List Delivery → List ℕ
open_of l rows = map (λ (d : Delivery). d.id) rows ++ l.delivered

weaken :
    (limit : ℕ) (is js : List ℕ) (d : Delivery)
    → (In d.id is → In d.id js)
    → Halfway limit is d
    → Halfway limit js d
weaken limit is js d sub h = (h.0, λ p full. sub (h.1 p full))

moved : (x i : ℕ) (is js : List ℕ) → In x (i ∷ is ++ js) → In x (is ++ (js ++ i ∷ []))
moved x i is js (inl e) =
    In-append_right x is (js ++ i ∷ []) (In-append_right x js (i ∷ []) (inl e))
moved x i is js (inr m) =
    rw (← append_assoc is js (i ∷ [])) (In-append_left x (is ++ js) (i ∷ []) m)

-- The primary key of the deliveries.
abbrev pub UniqueIds : List Delivery → Type 0
UniqueIds ds = (a b : Delivery) → In a ds → In b ds → a.id ≡ b.id → a ≡ b

module _ (cfg : Config) (pass : Pass) where
  abbrev Table : Loop → List Delivery → Type 0
  Table l rows = All (Halfway cfg.max_attempts (open_of l rows)) l.table

  Closes-Table :
      (l : Loop) (row : Delivery) (rows : List Delivery) (f : Delivery → Delivery)
      → Closes cfg.max_attempts f
      → Table l (row ∷ rows)
      → All (Halfway cfg.max_attempts (open_of l rows)) (update_ids (row.id ∷ []) f l.table)
  Closes-Table l row rows f closes h =
      All-map (Halfway cfg.max_attempts (open_of l (row ∷ rows)))
        (Halfway cfg.max_attempts (open_of l rows)) (λ d. if mem d.id (row.id ∷ []) then f d else d)
        l.table (update-Halfway cfg.max_attempts row.id (open_of l rows) f closes) h

  settle-Table :
      (l : Loop) (row : Delivery) (rows : List Delivery) (answer : Option Text)
      → Table l (row ∷ rows)
      → Table (settle cfg pass l row answer) rows
  unfolding settle
  settle-Table l row rows none h =
      let is = map (λ (d : Delivery). d.id) rows in
      All-of_In l.table λ d m.
        weaken cfg.max_attempts (row.id ∷ is ++ l.delivered) (is ++ (l.delivered ++ row.id ∷ [])) d
          (moved d.id row.id is l.delivered)
          (All-In (Halfway cfg.max_attempts (open_of l (row ∷ rows))) d l.table h m)
  settle-Table l row rows (some message) h =
      Closes-Table l row rows (retry_row cfg.max_attempts (pass.settled_at row.id) message)
        (retry-Closes cfg.max_attempts (pass.settled_at row.id) message) h

  refuse-Table :
      (l : Loop) (row : Delivery) (rows : List Delivery)
      → Table l (row ∷ rows)
      → Table (refuse cfg l row) rows
  unfolding refuse
  refuse-Table l row rows h =
      let message = refusal cfg.max_per_channel_per_hour in
      Closes-Table l row rows (refuse_row message) (refuse-Closes cfg.max_attempts message) h

  drain_row-Table :
      (l : Loop) (row : Delivery) (rows : List Delivery)
      → Table l (row ∷ rows)
      → Table (drain_row cfg pass l row) rows
  unfolding drain_row
  drain_row-Table l row rows h = elim (Bool-cases (at_ceiling cfg l row)) [
    | inl full ↦ rw full (refuse-Table l row rows h)
    | inr room ↦ rw room (settle-Table l row rows (pass.send row) h)
  ]

  drain_rows-Table :
      (l : Loop) (rows : List Delivery) → Table l rows → Table (drain_rows cfg pass l rows) []
  unfolding drain_rows
  drain_rows-Table l [] h = h
  drain_rows-Table l (row ∷ rows) h =
      drain_rows-Table (drain_row cfg pass l row) rows (drain_row-Table l row rows h)

  marked :
      (is : List ℕ) (d : Delivery)
      → Halfway cfg.max_attempts is d
      → Within cfg.max_attempts (if mem d.id is then sent_row pass.mark_at d else d)
  unfolding sent_row
  marked is d k = elim (Bool-cases (mem d.id is)) [
    | inl done ↦ rw done (k.0, λ p. cc)
    | inr kept ↦ rw kept (
      k.0,
      λ p. elim (Bool-cases (ltb d.attempts cfg.max_attempts)) [
        | inl less ↦ ground arith
        | inr full ↦ let clash = mem-In d.id is (k.1 p (ground arith)) in absurd (ground arith)
      ],
    )
  ]

  pending-claimed :
      (now : ℕ) (locked : Locked) (ds : List Delivery) (d : Delivery)
      → UniqueIds ds
      → All (Within cfg.max_attempts) ds
      → In d ds
      → Halfway cfg.max_attempts
          (claimed_ids cfg.batch_size now locked ds)
          (if mem d.id (claimed_ids cfg.batch_size now locked ds) then claim_row now d else d)
  pending-claimed now locked ds d unique h m =
      claim-Halfway cfg.max_attempts now (claimed_ids cfg.batch_size now locked ds) d
        (All-In (Within cfg.max_attempts) d ds h m) (λ taken. own taken)
    where
      own : mem d.id (claimed_ids cfg.batch_size now locked ds) ≡ true → d.status ≡ pending
      own taken =
          let ids = claimed_ids cfg.batch_size now locked ds in
          let (c, n, claims, _, same) =
            In-claimed_ids cfg.batch_size now locked ds d.id (In-mem d.id ids taken) in
          let waits : c.status ≡ pending = ground arith in
          ap (λ (x : Delivery). x.status) (unique d c m n (sym same)) ∙ waits

  -- Every claimed alert of the table is one of the rows that the loop goes through.
  started :
      (table : List Delivery) (ids : List ℕ)
      → All (Halfway cfg.max_attempts ids) table
      → Table (start_loop cfg pass table ids) (contexts ids table)
  unfolding start_loop contexts
  started table ids h = All-of_In table λ d m.
      let claimed = λ (x : Delivery). mem x.id ids in
      weaken cfg.max_attempts ids (map (λ (x : Delivery). x.id) (filter claimed table) ++ []) d
        (λ n. In-append_left d.id (map (λ (x : Delivery). x.id) (filter claimed table)) [] (
          In-map (λ (x : Delivery). x.id) d (filter claimed table)
            (In-filter claimed d table m (mem-In d.id ids n))))
        (All-In (Halfway cfg.max_attempts ids) d table h m)

  -- Where every alert has an id of its own and is within its attempts, a whole pass keeps it so:
  -- none is tried more than `max_attempts` times, and one that has used them all does not wait.
  pub drain-attempts :
      (db : Db) (n : Counters)
      → UniqueIds db.deliveries
      → All (Within cfg.max_attempts) db.deliveries
      → All (Within cfg.max_attempts) (drain cfg pass (db, n)).0.deliveries
  unfolding drain mark claim
  drain-attempts db n unique h =
      let ids = claimed_ids cfg.batch_size pass.claim_at pass.locked db.deliveries in
      let table = update_ids ids (claim_row pass.claim_at) db.deliveries in
      let claimed = All-of_In table λ d m. from_row d m in
      let l = drain_rows cfg pass (start_loop cfg pass table ids) (contexts ids table) in
      All-map (Halfway cfg.max_attempts l.delivered) (Within cfg.max_attempts)
        (λ d. if mem d.id l.delivered then sent_row pass.mark_at d else d) l.table
        (marked l.delivered)
        (drain_rows-Table (start_loop cfg pass table ids) (contexts ids table)
          (started table ids claimed))
    where
      from_row :
          (d : Delivery)
          → In d (
              update_ids
                (claimed_ids cfg.batch_size pass.claim_at pass.locked db.deliveries)
                (claim_row pass.claim_at)
                db.deliveries)
          → Halfway cfg.max_attempts
              (claimed_ids cfg.batch_size pass.claim_at pass.locked db.deliveries)
              d
      from_row d m =
          let ids = claimed_ids cfg.batch_size pass.claim_at pass.locked db.deliveries in
          let (c, n, e) =
            In-of_map (λ (x : Delivery). if mem x.id ids then claim_row pass.claim_at x else x) d
              db.deliveries m in
          subst (Halfway cfg.max_attempts ids) e
            (pending-claimed pass.claim_at pass.locked db.deliveries c unique h n)
