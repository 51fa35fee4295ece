-- ===== src/RateLimiter.antt =====
-- common/rate-limiter.ts: the fixed-window limiter. `now` is an argument of every call, as in the
-- source; the source's default `Date.now()` is a value that the caller passes.
pub mod Bounds
pub mod Budget
mod Examples
use silence_watch.Prelude.{
  Bool, Eq, List, Option, [], false, filter, if◌then◌else◌, leb, length, ltb, max, nat_eq, none,
  not, some, suc, text_keys, ℕ, ◌&&◌, ◌*◌, ◌+◌, ◌-◌, ◌/◌, ◌∷◌,
}
use silence_watch.OrderedMap.{delete, get, set}

pub record Window : Type 0 where
  pub count : ℕ
  pub reset_at : ℕ

pub record RateLimiter (K : Type 0) : Type 0 where
  pub limit : ℕ
  pub window_ms : ℕ
  pub max_keys : ℕ
  pub windows : List (K × Window)

-- The seconds that a refused caller is told to wait.
retry_after : Window → ℕ → ℕ
retry_after w now = max 1 ((w.reset_at - now + 999) / 1000)

module _ {K : Type 0} where
  unfoldable pub new : ℕ → ℕ → ℕ → RateLimiter K
  new limit window_ms max_keys = record {
    limit = limit;
    window_ms = window_ms;
    max_keys = max_keys;
    windows = [];
  }

  -- The second loop of `evict`: drop keys from the front until `excess` of them are gone.
  drop_oldest : ℕ → ℕ → List (K × Window) → List (K × Window)
  drop_oldest dropped excess [] = []
  drop_oldest dropped excess (w ∷ ws) =
      let rest = drop_oldest (suc dropped) excess ws in
      if leb excess (suc dropped) then ws else rest

  -- `Math.floor(this.maxKeys * 0.9)` is written in whole numbers.
  evict : RateLimiter K → ℕ → RateLimiter K
  unfolding drop_oldest
  evict rl now =
      let live = filter (λ (w : K × Window). not (leb w.1.reset_at now)) rl.windows in
      record rl {
        windows =
            if leb rl.max_keys (length live)
            then drop_oldest 0 (length live - rl.max_keys * 9 / 10) live
            else live;
      }

module _ {K : Type 0} ⦃e : Eq K⦄ where
  -- The branch of `hit` that opens a window.
  open_window : RateLimiter K → K → ℕ → RateLimiter K
  unfolding evict
  open_window rl key now =
      let room = if leb rl.max_keys (length rl.windows) then evict rl now else rl in
      record room {
        windows =
            set key (record { count = 1; reset_at = now + rl.window_ms }) (delete key room.windows);
      }

  -- What `hit` does once it has looked the window up.
  hit_window : RateLimiter K → K → ℕ → Option Window → RateLimiter K × ℕ
  unfolding open_window retry_after
  hit_window rl key now none = (open_window rl key now, 0)
  hit_window rl key now (some w) =
      if leb w.reset_at now
      then (open_window rl key now, 0)
      else if leb rl.limit w.count
      then (rl, retry_after w now)
      else (record rl { windows = set key (record w { count = w.count + 1 }) rl.windows }, 0)

  unfoldable pub hit : RateLimiter K → K → ℕ → RateLimiter K × ℕ
  unfolding hit_window
  hit rl key now = hit_window rl key now (get key rl.windows)

  exceeded_window : RateLimiter K → ℕ → Option Window → Bool
  exceeded_window rl now none = false
  exceeded_window rl now (some w) = ltb now w.reset_at && leb rl.limit w.count

  unfoldable pub exceeded : RateLimiter K → K → ℕ → Bool
  unfolding exceeded_window
  exceeded rl key now = exceeded_window rl now (get key rl.windows)

  unfoldable pub size : RateLimiter K → ℕ
  size rl = length rl.windows

  pub reset : RateLimiter K → Option K → RateLimiter K
  reset rl none = record rl { windows = [] }
  reset rl (some key) = record rl { windows = delete key rl.windows }
