-- ===== src/RateLimiter/Budget.antt =====
-- The promise of the limiter to its callers: which calls of a key a window lets through.
use silence_watch.RateLimiter.Bounds.{hit-other_keys}
use silence_watch.Prelude.{
  All, Bool, Bool-cases, Eq, List, Option-cases, [], ap, arith, false, filter, if◌then◌else◌, inl,
  inr, leb, length, max, nat_eq, refl, some, subst, suc, sym, text_keys, true, zero, ℕ, ◌+◌, ◌-◌,
  ◌<◌, ◌==◌, ◌∙◌, ◌∷◌, ◌≡◌, ◌≤◌,
}
use silence_watch.OrderedMap.{
  beq_refl, delete, get, get-set, length-delete-le, length-set-le, length-set_present, set,
}
use silence_watch.RateLimiter.{RateLimiter, Window, hit, hit_window, open_window, retry_after, size}

-- Of a number of calls, the first `n` are allowed and the others refused.
abbrev pub first_allowed : ℕ → ℕ → List Bool
first_allowed n zero = []
first_allowed zero (suc calls) = false ∷ first_allowed zero calls
first_allowed (suc n) (suc calls) = true ∷ first_allowed n calls

first_allowed-max :
    (limit calls : ℕ)
    → true ∷ first_allowed (limit - 1) calls ≡ first_allowed (max 1 limit) (suc calls)
first_allowed-max zero calls = refl
first_allowed-max (suc limit) calls =
    let one : max 1 (suc limit) ≡ suc limit = omega arith in
    let less : suc limit - 1 ≡ limit = omega arith in rw one (rw less refl)

module _ {K : Type 0} ⦃e : Eq K⦄ where
  abbrev pub calls_of : K → List (K × ℕ) → ℕ
  calls_of key calls = length (filter (λ (c : K × ℕ). e.beq c.0 key) calls)

  -- Whether each of the calls of one key is allowed, in a sequence of calls with their instants.
  pub verdicts : RateLimiter K → K → List (K × ℕ) → List Bool
  verdicts rl key [] = []
  verdicts rl key ((k, now) ∷ later) =
      let (next, delay) = hit rl k now in
      let rest = verdicts next key later in if e.beq k key then (delay == 0) ∷ rest else rest

  open_window-grows :
      (rl : RateLimiter K) (key : K) (now : ℕ)
      → size rl < rl.max_keys
      → (size (open_window rl key now) ≤ size rl + 1)
        × ((open_window rl key now).limit ≡ rl.limit)
        × ((open_window rl key now).max_keys ≡ rl.max_keys)
  unfolding open_window size
  open_window-grows rl key now room =
      let fresh : Window = record { count = 1; reset_at = now + rl.window_ms } in
      let free : leb rl.max_keys (length rl.windows) ≡ false = ground arith in
      rw free (
        omega (
          arith,
          length-set-le key fresh (delete key rl.windows),
          length-delete-le key rl.windows,
        ),
        refl,
        refl,
      )

  -- While there is room, a call adds one window at most.
  hit-grows :
      (rl : RateLimiter K) (key : K) (now : ℕ)
      → size rl < rl.max_keys
      → (size (hit rl key now).0 ≤ size rl + 1)
        × ((hit rl key now).0.limit ≡ rl.limit)
        × ((hit rl key now).0.max_keys ≡ rl.max_keys)
  unfolding hit hit_window size
  hit-grows rl key now room = elim (Option-cases (get key rl.windows)) [
    | inl absent ↦ rw (absent, hit_window) (open_window-grows rl key now room)
    | inr (w, present) ↦ elim (Bool-cases (leb w.reset_at now)) [
      | inl over ↦ rw (present, hit_window) (rw over (open_window-grows rl key now room))
      | inr on ↦ elim (Bool-cases (leb rl.limit w.count)) [
        | inl spent ↦ rw (present, hit_window) (rw on (rw spent (omega arith, refl, refl)))
        | inr left ↦
            let used : Window = record w { count = w.count + 1 } in
            rw (present, hit_window)
              (rw on (
                rw left
                  (omega (arith, length-set_present key used w rl.windows present), refl, refl)))
      ]
    ]
  ]

  -- A call of a key with an open window.
  hit_present :
      (rl : RateLimiter K) (key : K) (w : Window) (now : ℕ)
      → get key rl.windows ≡ some w
      → now < w.reset_at
      → hit rl key now ≡ (
          if leb rl.limit w.count
          then (rl, retry_after w now)
          else (record rl { windows = set key (record w { count = w.count + 1 }) rl.windows }, 0))
  unfolding hit hit_window
  hit_present rl key w now present before =
      let on : leb w.reset_at now ≡ false = ground arith in rw (present, hit_window) (rw on refl)

  verdicts-spent :
      (rl : RateLimiter K) (key : K) (w : Window) (t : ℕ) (calls : List (K × ℕ))
      → hit rl key t ≡ (rl, retry_after w t)
      → leb rl.limit w.count ≡ true
      → verdicts rl key calls ≡ first_allowed (rl.limit - w.count) (calls_of key calls)
      → verdicts rl key ((key, t) ∷ calls)
        ≡ first_allowed (rl.limit - w.count) (calls_of key ((key, t) ∷ calls))
  unfolding verdicts retry_after
  verdicts-spent rl key w t calls stays spent rest =
      let nothing : rl.limit - w.count ≡ 0 = ground arith in
      let waits : (retry_after w t == 0) ≡ false = ground arith in
      rw stays (rw (beq_refl key) (rw rest (rw nothing (rw waits refl))))

  verdicts-counted :
      (rl after : RateLimiter K) (key : K) (count t : ℕ) (calls : List (K × ℕ))
      → hit rl key t ≡ (after, 0)
      → leb rl.limit count ≡ false
      → verdicts after key calls ≡ first_allowed (rl.limit - (count + 1)) (calls_of key calls)
      → verdicts rl key ((key, t) ∷ calls)
        ≡ first_allowed (rl.limit - count) (calls_of key ((key, t) ∷ calls))
  unfolding verdicts
  verdicts-counted rl after key count t calls counted left rest =
      let one : rl.limit - count ≡ suc (rl.limit - (count + 1)) = ground arith in
      rw counted (rw (beq_refl key) (rw rest (rw one refl)))

  hit_open :
      (rl : RateLimiter K) (key : K) (now : ℕ)
      → ((w : Window) → get key rl.windows ≡ some w → w.reset_at ≤ now)
      → hit rl key now ≡ (open_window rl key now, 0)
  unfolding hit hit_window
  hit_open rl key now closed = elim (Option-cases (get key rl.windows)) [
    | inl absent ↦ rw (absent, hit_window)
    | inr (w, present) ↦ rw (present, hit_window) (ground (arith, closed w present))
  ]

  -- While the table has room and the window of a key is open, its next calls are allowed as far as
  -- its budget goes, whatever other keys call.
  verdicts-open :
      (rl : RateLimiter K) (key : K) (w : Window) (calls : List (K × ℕ))
      → get key rl.windows ≡ some w
      → All (λ (c : K × ℕ). c.1 < w.reset_at) calls
      → size rl + length calls ≤ rl.max_keys
      → verdicts rl key calls ≡ first_allowed (rl.limit - w.count) (calls_of key calls)
  unfolding verdicts size
  verdicts-open rl key w [] present before room = refl
  verdicts-open rl key w ((k, t) ∷ calls) present (now_before, before) room =
      let next = (hit rl k t).0 in
      let (grown, same_limit, same_room) = hit-grows rl k t (omega (arith, room)) in
      elim (Bool-cases (e.beq k key)) [
        | inr other ↦
            let kept = hit-other_keys rl k key t (omega (arith, room)) other ∙ present in
            let rest =
              verdicts-open next key w calls kept before (omega (arith, room, grown, same_room)) in
            rw other (rest ∙ ap (λ n. first_allowed (n - w.count) (calls_of key calls)) same_limit)
        | inl same ↦
            subst
              (λ j.
                verdicts rl key ((j, t) ∷ calls)
                ≡ first_allowed (rl.limit - w.count) (calls_of key ((j, t) ∷ calls)))
              (sym ((e.beq_iff k key).0 same))
              (elim (Bool-cases (leb rl.limit w.count)) [
                | inl spent ↦
                    let stays = hit_present rl key w t present now_before ∙ rw spent refl in
                    let rest = verdicts-open rl key w calls present before (omega (arith, room)) in
                    verdicts-spent rl key w t calls stays spent rest
                | inr left ↦
                    let used : Window = record w { count = w.count + 1 } in
                    let after = record rl { windows = set key used rl.windows } in
                    let counted : hit rl key t ≡ (after, 0) =
                      hit_present rl key w t present now_before ∙ rw left refl in
                    let there : get key after.windows ≡ some used =
                      get-set key key used rl.windows ∙ rw (beq_refl key) refl in
                    let rest =
                      verdicts-open after key used calls there before
                        (omega (arith, room, length-set_present key used w rl.windows present)) in
                    verdicts-counted rl after key w.count t calls counted left rest
              ])
      ]

  -- For a key with no open window, and a table with room for a window of every call: of the calls of
  -- the key made from then until its window closes, the first `limit` are allowed (one if the limit
  -- is 0) and the others refused, whatever other keys call in between.
  pub run-allowed :
      (rl : RateLimiter K) (key : K) (now : ℕ) (later : List (K × ℕ))
      → ((w : Window) → get key rl.windows ≡ some w → w.reset_at ≤ now)
      → All (λ (c : K × ℕ). c.1 < now + rl.window_ms) later
      → size rl + length later < rl.max_keys
      → verdicts rl key ((key, now) ∷ later)
        ≡ first_allowed (max 1 rl.limit) (suc (calls_of key later))
  unfolding verdicts open_window size
  run-allowed rl key now later closed before room =
      let fresh : Window = record { count = 1; reset_at = now + rl.window_ms } in
      let opened = open_window rl key now in
      let (grown, same_limit, same_room) = open_window-grows rl key now (omega (arith, room)) in
      let free : leb rl.max_keys (length rl.windows) ≡ false = ground (arith, room) in
      let there : get key opened.windows ≡ some fresh =
        rw free (get-set key key fresh (delete key rl.windows) ∙ rw (beq_refl key) refl) in
      let rest =
        verdicts-open opened key fresh later there before (omega (arith, room, grown, same_room)) in
      rw (hit_open rl key now closed) (
        rw (beq_refl key)
          (rw rest (rw same_limit (first_allowed-max rl.limit (calls_of key later)))))
