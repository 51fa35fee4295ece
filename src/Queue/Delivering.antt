-- ===== src/Queue/Delivering.antt =====
-- The delivery pass: leases, retries, and the ceiling of a channel.
use silence_watch.Tables.Members.{mem-In}
use silence_watch.Prelude.{
  Bool-cases, In, In-of_filter, In-of_map, In-of_sort_by, In-of_take, List, ap, arith, false,
  filter, if◌then◌else◌, inl, inr, min, nat_eq, not, refl, sort_by, suc, sym, take, text_keys, true,
  zero, ℕ, ◌*◌, ◌+◌, ◌<◌, ◌^◌, ◌∙◌, ◌≡◌, ◌≤◌,
}
use silence_watch.Tables.{Delivery, mem}
use native.Mathlib.Nat.{pow-suc}
use silence_watch.Queue.{Locked}
use silence_watch.Queue.Drain.{
  backoff_seconds, claim, claim_row, claimable, claimed_ids, lease_ms, update_ids,
}

-- Where a claimed id comes from.
pub In-claimed_ids :
    (limit now : ℕ) (locked : Locked) (ds : List Delivery) (i : ℕ)
    → In i (claimed_ids limit now locked ds)
    → (d : Delivery) × In d ds × (claimable now d ≡ true) × (locked d.id ≡ false) × (d.id ≡ i)
unfolding claimed_ids
In-claimed_ids limit now locked ds i m =
    let key = λ (d : Delivery). d.next_attempt_at in
    let free = λ (d : Delivery). not (locked d.id) in
    let due = filter (claimable now) ds in
    let (d, n, e) =
      In-of_map (λ (d : Delivery). d.id) i (take limit (filter free (sort_by key due))) m in
    let (k, unlocked) =
      In-of_filter free d (sort_by key due)
        (In-of_take limit d (filter free (sort_by key due)) n) in
    let (h, claims) = In-of_filter (claimable now) d ds (In-of_sort_by key d due k) in
    (d, h, claims, ground arith, e)

-- Two workers that claim within the lease of the first take different alerts, whatever rows the
-- other transactions hold.
pub claim-disjoint :
    (limit limit' now later : ℕ) (locked locked' : Locked) (ds : List Delivery) (i : ℕ)
    → later < now + lease_ms
    → In i (claim limit now locked ds).1
    → ¬ In i (claim limit' later locked' (claim limit now locked ds).0).1
unfolding claim
claim-disjoint limit limit' now later locked locked' ds i soon first second =
    let ids = claimed_ids limit now locked ds in
    let (d, m, claims, _, same) =
      In-claimed_ids limit' later locked' (update_ids ids (claim_row now) ds) i second in
    let (c, n, e) =
      In-of_map (λ (d : Delivery). if mem d.id ids then claim_row now d else d) d ds m in
    stale c d e same claims
  where
    stale :
        (c d : Delivery)
        → (if mem c.id (claimed_ids limit now locked ds) then claim_row now c else c) ≡ d
        → d.id ≡ i
        → claimable later d ≡ true
        → ⊥
    stale c d e same claims = elim (Bool-cases (mem c.id (claimed_ids limit now locked ds))) [
      | inl taken ↦ ground (arith, rw taken at e)
      | inr free ↦
          let own : c ≡ d = rw free at e in
          let taken = mem-In i (claimed_ids limit now locked ds) first in
          let same_id : c.id ≡ i = ap (λ (x : Delivery). x.id) own ∙ same in
          let clash : true ≡ false = sym (rw (← same_id) at taken) ∙ free in cc
    ]

one-le-pow : (n : ℕ) → 1 ≤ 2 ^ n
one-le-pow zero = omega arith
one-le-pow (suc n) = omega (arith, one-le-pow n, pow-suc 2 n)

-- The wait after a failed attempt starts at half a minute, doubles each time, and stops growing at
-- an hour.
pub backoff_seconds-doubles :
    (n : ℕ)
    → (backoff_seconds 1 ≡ 30)
      × (backoff_seconds (suc (suc n)) ≡ min 3600 (2 * backoff_seconds (suc n)))
      × (30 ≤ backoff_seconds (suc n))
      × (backoff_seconds (suc n) ≤ 3600)
unfolding backoff_seconds
backoff_seconds-doubles n =
    let double = pow-suc 2 n in
    (refl, ground (arith, double), ground (arith, one-le-pow n), ground arith)
