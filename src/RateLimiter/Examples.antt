-- ===== src/RateLimiter/Examples.antt =====
-- The limiter at work: two calls a minute for each key.
use silence_watch.RateLimiter.Budget.{first_allowed, run-allowed, verdicts}
use silence_watch.OrderedMap.{get}
use silence_watch.Prelude.{[], arith, nat_eq, refl, text_keys, ℕ, ◌∷◌, ◌≡◌}
use silence_watch.RateLimiter.{RateLimiter, hit, size}

abbrev two_a_minute : RateLimiter ℕ
two_a_minute = record { limit = 2; window_ms = 60000; max_keys = 100; windows = [] }

abbrev spent : RateLimiter ℕ
spent = record two_a_minute { windows = (7, record { count = 2; reset_at = 60000 }) ∷ [] }

third_refused : (hit spent 7 500).1 ≡ 60
unfolding hit get
third_refused = refl

-- Four calls of one key, and one of another in between.
run-allowed_example :
    verdicts two_a_minute 7 ((7, 0) ∷ (7, 10) ∷ (8, 15) ∷ (7, 20) ∷ (7, 59999) ∷ [])
    ≡ first_allowed 2 4
unfolding get size
run-allowed_example =
    run-allowed two_a_minute 7 0 ((7, 10) ∷ (8, 15) ∷ (7, 20) ∷ (7, 59999) ∷ []) (λ w h. cc)
      (omega arith, (omega arith, (omega arith, (omega arith, tt)))) (omega arith)
