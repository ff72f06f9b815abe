-- ===== src/RateLimit/Buckets.antt =====
-- The laws of the limiter's map: one bucket for a client, found again after a write, and kept or
-- dropped by `retain` as its window is current or not.
use rustyalias.Common.{ℕ, ◌≡◌, ◌≢◌, refl, arith, List, [], ◌∷◌, Option, none, some, if◌then◌else◌}
use rustyalias.RateLimit.{Bucket, RateLimiter, is_current, find, put, retain, prune}

-- A bucket that counts at the time `now`.
abbrev pub live : RateLimiter → ℕ → Option Bucket → Option Bucket
live rl now none = none
live rl now (some b) = if is_current rl now b then some b else none

module _ {IpAddr : Type 0} (ip_eq : Discrete IpAddr) where
  -- No client has two buckets.
  abbrev pub Unique : List (IpAddr × Bucket) → Type 0
  Unique [] = Unit
  Unique ((j, b) ∷ m) = (find ip_eq j m ≡ none) × Unique m

  pub find-put_self :
      (ip : IpAddr) (b : Bucket) (m : List (IpAddr × Bucket))
      → find ip_eq ip (put ip_eq ip b m) ≡ some b
  unfolding find put
  find-put_self ip b [] = ground arith
  find-put_self ip b ((j, c) ∷ m) = ground (arith, find-put_self ip b m)

  pub find-put_ne :
      (ip j : IpAddr) (b : Bucket) (m : List (IpAddr × Bucket))
      → j ≢ ip
      → find ip_eq j (put ip_eq ip b m) ≡ find ip_eq j m
  unfolding find put
  find-put_ne ip j b [] ne = ground arith
  find-put_ne ip j b ((k, c) ∷ m) ne = ground (arith, find-put_ne ip j b m)

  pub put-Unique :
      (ip : IpAddr) (b : Bucket) (m : List (IpAddr × Bucket)) → Unique m → Unique (put ip_eq ip b m)
  unfolding find put
  put-Unique ip b [] u = (refl, tt)
  put-Unique ip b ((j, c) ∷ m) u = ground (arith, put-Unique ip b m, find-put_ne ip j b m)

  retain_absent :
      (rl : RateLimiter) (now : ℕ) (j : IpAddr) (m : List (IpAddr × Bucket))
      → find ip_eq j m ≡ none
      → find ip_eq j (retain rl now m) ≡ none
  unfolding find retain
  retain_absent rl now j [] e = refl
  retain_absent rl now j ((k, c) ∷ m) e = ground (arith, retain_absent rl now j m)

  pub retain-Unique :
      (rl : RateLimiter) (now : ℕ) (m : List (IpAddr × Bucket))
      → Unique m
      → Unique (retain rl now m)
  unfolding retain
  retain-Unique rl now [] u = tt
  retain-Unique rl now ((j, b) ∷ m) u =
      ground (arith, retain-Unique rl now m, retain_absent rl now j m)

  pub find-retain :
      (rl : RateLimiter) (now : ℕ) (j : IpAddr) (m : List (IpAddr × Bucket))
      → Unique m
      → find ip_eq j (retain rl now m) ≡ live rl now (find ip_eq j m)
  unfolding find retain
  find-retain rl now j [] u = refl
  find-retain rl now j ((k, b) ∷ m) u =
      ground (arith, find-retain rl now j m, retain_absent rl now j m)

  pub prune-Unique :
      (rl : RateLimiter) (now : ℕ) (m : List (IpAddr × Bucket)) → Unique m → Unique (prune rl now m)
  unfolding prune
  prune-Unique rl now m u = ground (arith, retain-Unique rl now m)
