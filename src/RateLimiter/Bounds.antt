-- ===== src/RateLimiter/Bounds.antt =====
-- What one call of the limiter does, and how large its table grows.
use silence_watch.OrderedMap.{
  delete, get, get-delete, get-set, length-delete-le, length-set-le, length-set_present,
}
use silence_watch.Prelude.{
  Eq, List, Option-cases, [], arith, false, filter, inl, inr, leb, length, nat_eq, not, suc,
  text_keys, true, ℕ, ◌*◌, ◌+◌, ◌-◌, ◌/◌, ◌<◌, ◌↔◌, ◌∷◌, ◌≡◌, ◌≤◌,
}
use silence_watch.RateLimiter.{
  RateLimiter, Window, drop_oldest, evict, exceeded, exceeded_window, hit, hit_window, open_window,
  retry_after, size,
}

module _ {K : Type 0} where
  length-drop_oldest :
      (dropped excess : ℕ) (ws : List (K × Window))
      → dropped < excess
      → excess ≤ dropped + length ws
      → length (drop_oldest dropped excess ws) + excess ≡ dropped + length ws
  unfolding drop_oldest
  length-drop_oldest d x [] h k = absurd (omega arith)
  length-drop_oldest d x (w ∷ ws) h k = ground (arith, length-drop_oldest (suc d) x ws)

  -- After `evict` there is room for one more key.
  length-evict :
      (rl : RateLimiter K) (now : ℕ) → 0 < rl.max_keys → length (evict rl now).windows < rl.max_keys
  unfolding evict
  length-evict rl now h =
      let live = filter (λ (w : K × Window). not (leb w.1.reset_at now)) rl.windows in
      ground (arith, length-drop_oldest 0 (length live - rl.max_keys * 9 / 10) live)

module _ {K : Type 0} ⦃e : Eq K⦄ where
  -- A call is refused exactly when `exceeded` says that the budget is spent.
  pub hit-exceeded_iff :
      (rl : RateLimiter K) (key : K) (now : ℕ)
      → (0 < (hit rl key now).1) ↔ (exceeded rl key now ≡ true)
  unfolding hit hit_window exceeded exceeded_window retry_after
  hit-exceeded_iff rl key now = (λ h. ground arith, λ h. ground arith)

  open_window-size :
      (rl : RateLimiter K) (key : K) (now : ℕ)
      → 0 < rl.max_keys
      → length rl.windows ≤ rl.max_keys
      → length (open_window rl key now).windows ≤ rl.max_keys
  unfolding open_window
  open_window-size rl key now h k =
      let fresh : Window = record { count = 1; reset_at = now + rl.window_ms } in
      ground (
        arith,
        length-evict rl now h,
        length-delete-le key (evict rl now).windows,
        length-set-le key fresh (delete key (evict rl now).windows),
        length-delete-le key rl.windows,
        length-set-le key fresh (delete key rl.windows),
      )

  -- A table of at most `max_keys` windows, of which there may be one, stays so whatever key calls.
  pub size-hit :
      (rl : RateLimiter K) (key : K) (now : ℕ)
      → 0 < rl.max_keys
      → size rl ≤ rl.max_keys
      → size (hit rl key now).0 ≤ rl.max_keys
  unfolding hit hit_window size
  size-hit rl key now h k = elim (Option-cases (get key rl.windows)) [
    | inl absent ↦ rw (absent, hit_window) (open_window-size rl key now h k)
    | inr (w, present) ↦
        rw (present, hit_window)
          (ground (
            arith,
            open_window-size rl key now h k,
            length-set_present key (record w { count = w.count + 1 }) w rl.windows present,
          ))
  ]

  -- A refused call changes nothing, and the delay that it reports is the right number of seconds:
  -- a call made once they have passed is allowed, and one made a second earlier is still refused.
  pub hit-retry :
      (rl : RateLimiter K) (key : K) (now later : ℕ)
      → 0 < (hit rl key now).1
      → ((hit rl key now).0 ≡ rl)
        × (now + 1000 * (hit rl key now).1 ≤ later → (hit rl key later).1 ≡ 0)
        × (later ≤ now + 1000 * ((hit rl key now).1 - 1) → 0 < (hit rl key later).1)
  unfolding hit hit_window retry_after
  hit-retry rl key now later refused = (ground arith, λ waited. ground arith, λ early. ground arith)

  -- While the table has room, the calls of one key leave the windows of every other key alone.
  pub hit-other_keys :
      (rl : RateLimiter K) (key j : K) (now : ℕ)
      → size rl < rl.max_keys
      → e.beq key j ≡ false
      → get j (hit rl key now).0.windows ≡ get j rl.windows
  unfolding hit hit_window size open_window
  hit-other_keys rl key j now room other = elim (Option-cases (get key rl.windows)) [
    | inl absent ↦ rw (absent, hit_window) (opened other)
    | inr (w, present) ↦
        rw (present, hit_window)
          (ground
            (arith, opened other, get-set key j (record w { count = w.count + 1 }) rl.windows))
  ]
    where
      opened : e.beq key j ≡ false → get j (open_window rl key now).windows ≡ get j rl.windows
      opened ne =
          let fresh : Window = record { count = 1; reset_at = now + rl.window_ms } in
          ground (arith, get-set key j fresh (delete key rl.windows), get-delete key j rl.windows)
