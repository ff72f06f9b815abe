-- ===== src/RateLimit.antt =====
-- src/rate_limit.rs: the fixed-window limiter. Times are nanoseconds of the monotonic clock, and
-- `now` is the reading of `Instant::now()`, which `check` takes before the mutex. The mutex makes a
-- call of `check` one step on the map, an association list with one bucket for a client.
-- `duration_since` stops at zero, as `-` does.
pub mod Buckets
pub mod Refines
pub mod Quota
pub mod Window
pub mod Invariant
pub mod Tests
use rustyalias.Common.{
  ℕ, ◌+◌, ◌-◌, ◌*◌, Bool, true, false, not, ◌&&◌, List, [], ◌∷◌, Option, none, some, ltb, leb, ◌==◌,
  if◌then◌else◌, length, unwrap_or,
}
use mathlib.Core.Logic.{ite}

pub record Bucket : Type 0 where
  pub window_start : ℕ
  pub count : ℕ

-- The settings of `Inner`; its map is passed beside them.
pub record RateLimiter : Type 0 where
  pub window : ℕ
  pub max_requests : ℕ

-- `RateLimiter::new`, whose map is empty.
abbrev pub new : ℕ → ℕ → RateLimiter
new window_seconds max_requests = record {
  window = window_seconds * 1_000_000_000;
  max_requests = max_requests;
}

unfoldable pub is_enabled : RateLimiter → Bool
is_enabled rl = ltb 0 rl.max_requests && not (rl.window == 0)

abbrev pub is_current : RateLimiter → ℕ → Bucket → Bool
is_current rl now b = ltb (now - b.window_start) rl.window

module _ {IpAddr : Type 0} (ip_eq : Discrete IpAddr) where
  unfoldable pub find : IpAddr → List (IpAddr × Bucket) → Option Bucket
  find ip [] = none
  find ip ((j, b) ∷ m) = ite (ip_eq ip j) (some b) (find ip m)

  unfoldable pub put : IpAddr → Bucket → List (IpAddr × Bucket) → List (IpAddr × Bucket)
  put ip b [] = (ip, b) ∷ []
  put ip b ((j, c) ∷ m) = ite (ip_eq ip j) ((j, b) ∷ m) ((j, c) ∷ put ip b m)

-- `state.retain(…)`.
unfoldable pub retain :
    {IpAddr : Type 0} → RateLimiter → ℕ → List (IpAddr × Bucket) → List (IpAddr × Bucket)
retain rl now [] = []
retain rl now ((j, b) ∷ m) =
    let rest = retain rl now m in if is_current rl now b then (j, b) ∷ rest else rest

-- The pruning of a map that has grown past 1024 buckets.
unfoldable pub prune :
    {IpAddr : Type 0} → RateLimiter → ℕ → List (IpAddr × Bucket) → List (IpAddr × Bucket)
unfolding retain
prune rl now state = if ltb 1024 (length state) then retain rl now state else state

abbrev pub fresh : ℕ → Bucket
fresh now = record { window_start = now; count = 0 }

-- What happens to the client's bucket, and the answer.
unfoldable pub spend : RateLimiter → ℕ → Bucket → Bucket × Bool
spend rl now b =
    if leb rl.window (now - b.window_start)
    then (record { window_start = now; count = 1 }, true)
    else if leb rl.max_requests b.count
    then (b, false)
    else (record b { count = b.count + 1 }, true)

module _ {IpAddr : Type 0} (ip_eq : Discrete IpAddr) where
  unfoldable pub check :
      RateLimiter → ℕ → IpAddr → List (IpAddr × Bucket) → List (IpAddr × Bucket) × Bool
  check rl now ip state =
      if not (is_enabled rl)
      then (state, true)
      else (let pruned = prune rl now state in
          let (b, allowed) = spend rl now (unwrap_or (find ip_eq ip pruned) (fresh now)) in
          (put ip_eq ip b pruned, allowed))
