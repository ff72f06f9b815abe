-- ===== src/RateLimit/Quota.antt =====
-- The quota of `RateLimiter::check`: what a client with a bucket of the current window still gets.
use rustyalias.Common.{
  ℕ, ◌+◌, ◌-◌, ◌≤◌, ◌<◌, ◌≡◌, ◌≢◌, ◌⊎◌, sym, ◌∙◌, arith, min, true, false, List, [], ◌∷◌, some,
  if◌then◌else◌, Bool-cases, inl, inr, ltb, lt→ltb, leb, length, All,
}
use mathlib.Core.Logic.{ite}
use rustyalias.RateLimit.{
  Bucket, RateLimiter, is_current, is_enabled, find, put, prune, spend, check,
}
use rustyalias.RateLimit.Buckets.{
  live, Unique, find-put_self, find-put_ne, put-Unique, find-retain, prune-Unique,
}

-- A disabled limiter allows every request and keeps no bucket.
pub check_disabled :
    {IpAddr : Type 0} (ip_eq : Discrete IpAddr) (rl : RateLimiter) (now : ℕ) (ip : IpAddr)
    (state : List (IpAddr × Bucket))
    → (rl.max_requests ≡ 0) ⊎ (rl.window ≡ 0)
    → check ip_eq rl now ip state ≡ (state, true)
unfolding check is_enabled
check_disabled ip_eq rl now ip state off = ground arith

module _ {IpAddr : Type 0} (ip_eq : Discrete IpAddr) where
  -- A request: the time and the client.
  abbrev pub Request : Type 0
  Request = ℕ × IpAddr

  -- How many of the requests come from `ip`, and how many of those are allowed.
  abbrev pub requests_of : IpAddr → List (ℕ × IpAddr) → ℕ
  requests_of ip [] = 0
  requests_of ip ((now, j) ∷ rs) = ite (ip_eq j ip) 1 0 + requests_of ip rs

  abbrev pub granted : RateLimiter → IpAddr → List (IpAddr × Bucket) → List (ℕ × IpAddr) → ℕ
  granted rl ip state [] = 0
  granted rl ip state ((now, j) ∷ rs) =
      let (state', allowed) = check ip_eq rl now j state in
      ite (ip_eq j ip) (if allowed then 1 else 0) 0 + granted rl ip state' rs

  module _ (rl : RateLimiter) (on : is_enabled rl ≡ true) (start : ℕ) (ip : IpAddr) where
    -- The request falls in the window that opens at `start`.
    abbrev pub InWindow : ℕ × IpAddr → Type 0
    InWindow r = (start ≤ r.0) × (r.0 < start + rl.window)

    pub find_pruned :
        (now : ℕ) (state : List (IpAddr × Bucket)) (b : Bucket)
        → Unique ip_eq state
        → find ip_eq ip state ≡ some b
        → is_current rl now b ≡ true
        → find ip_eq ip (prune rl now state) ≡ some b
    unfolding prune
    find_pruned now state b u e c = elim (Bool-cases (ltb 1024 (length state))) [
      | inl big ↦ rw (big, find-retain ip_eq rl now ip state u, e, live, c)
      | inr small ↦ rw (small, e)
    ]

    pub current_in :
        (now : ℕ) (b : Bucket)
        → InWindow (now, ip)
        → start ≤ b.window_start
        → is_current rl now b ≡ true
    current_in now b (h, k) l = lt→ltb (now - b.window_start) rl.window (omega arith)

    module _ (now : ℕ) (state : List (IpAddr × Bucket)) (b : Bucket) (u : Unique ip_eq state)
        (e : find ip_eq ip state ≡ some b) (c : is_current rl now b ≡ true) where
      check_self : check ip_eq rl now ip state ≡ (
          if leb rl.max_requests b.count
          then (put ip_eq ip b (prune rl now state), false)
          else (put ip_eq ip (record b { count = b.count + 1 }) (prune rl now state), true))
      unfolding check spend
      check_self = rw (on, find_pruned now state b u e c) (ground arith)

      check_other : (j : IpAddr) → ip ≢ j → find ip_eq ip (check ip_eq rl now j state).0 ≡ some b
      unfolding check
      check_other j ne =
          rw on (find-put_ne ip_eq j ip _ (prune rl now state) ne ∙ find_pruned now state b u e c)

    pub check-Unique :
        (now : ℕ) (state : List (IpAddr × Bucket)) (j : IpAddr)
        → Unique ip_eq state
        → Unique ip_eq (check ip_eq rl now j state).0
    unfolding check
    check-Unique now state j u =
        rw on (put-Unique ip_eq j _ (prune rl now state) (prune-Unique ip_eq rl now state u))

    -- One request of the client itself, with what is left of the quota behind it.
    own_step :
        (now : ℕ) (rs : List (ℕ × IpAddr)) (state : List (IpAddr × Bucket)) (b : Bucket)
        → Unique ip_eq state
        → find ip_eq ip state ≡ some b
        → is_current rl now b ≡ true
        → start ≤ b.window_start
        → ((b' : Bucket) (state' : List (IpAddr × Bucket))
            → Unique ip_eq state'
            → find ip_eq ip state' ≡ some b'
            → start ≤ b'.window_start
            → granted rl ip state' rs ≡ min (requests_of ip rs) (rl.max_requests - b'.count))
        → granted rl ip state ((now, ip) ∷ rs)
          ≡ min (requests_of ip ((now, ip) ∷ rs)) (rl.max_requests - b.count)
    own_step now rs state b u e c s ih =
        let pruned = prune rl now state in
        let up = prune-Unique ip_eq rl now state u in
        elim (Bool-cases (leb rl.max_requests b.count)) [
          | inl spent ↦
              let next = put ip_eq ip b pruned in
              let rest =
                ih b next (put-Unique ip_eq ip b pruned up) (find-put_self ip_eq ip b pruned) s in
              rw (check_self now state b u e c, spent) (ground (arith))
          | inr open_quota ↦
              let b' = record b { count = b.count + 1 } in
              let next = put ip_eq ip b' pruned in
              let rest =
                ih b' next (put-Unique ip_eq ip b' pruned up) (find-put_self ip_eq ip b' pruned)
                  s in
              rw (check_self now state b u e c, open_quota) (ground (arith))
        ]

    -- A client with a bucket of this window gets what is left of its quota.
    pub granted_left :
        (rs : List (ℕ × IpAddr)) (state : List (IpAddr × Bucket)) (b : Bucket)
        → Unique ip_eq state
        → find ip_eq ip state ≡ some b
        → start ≤ b.window_start
        → All InWindow rs
        → granted rl ip state rs ≡ min (requests_of ip rs) (rl.max_requests - b.count)
    granted_left [] state b u e s w = omega arith
    granted_left ((now, j) ∷ rs) state b u e s (w, ws) =
        let c = current_in now b w s in
        let u' = check-Unique now state j u in
        elim (ip_eq j ip) [
          | no p ↦
              let other = check_other now state b u e c j (λ q. p (sym q)) in
              let ih = granted_left rs (check ip_eq rl now j state).0 b u' other s ws in
              ground arith
          | yes p ↦ rw p (
              own_step now rs state b u e c s
                (λ b' state' u1 e1 s1. granted_left rs state' b' u1 e1 s1 ws))
        ]
