-- ===== src/RateLimit/Window.antt =====
-- The quota of `RateLimiter::check` over one whole window, whatever the other clients do.
use rustyalias.Common.{
  ℕ, ◌-◌, ◌≤◌, ◌≡◌, ◌≢◌, refl, sym, ◌∙◌, ap, arith, min, true, List, [], ◌∷◌, Option, none, some,
  Bool-cases, inl, inr, ltb, length, All,
}
use rustyalias.RateLimit.{Bucket, RateLimiter, is_enabled, find, put, prune, fresh, spend, check}
use rustyalias.RateLimit.Buckets.{
  live, Unique, find-put_self, find-put_ne, put-Unique, find-retain, prune-Unique,
}
use rustyalias.RateLimit.Refines.{spend-live, live-live, find-prune}
use rustyalias.RateLimit.Quota.{requests_of, granted, InWindow, check-Unique, granted_left}

module _ {IpAddr : Type 0} (ip_eq : Discrete IpAddr) where
  module _ (rl : RateLimiter) (on : is_enabled rl ≡ true) (start : ℕ) (ip : IpAddr) where
    -- The client has no bucket that counts when the window opens.
    abbrev pub Rested : List (IpAddr × Bucket) → Type 0
    Rested state = live rl start (find ip_eq ip state) ≡ none

    Rested-at :
        (now : ℕ) (state : List (IpAddr × Bucket))
        → Unique ip_eq state
        → Rested state
        → start ≤ now
        → live rl now (find ip_eq ip (prune rl now state)) ≡ none
    Rested-at now state u e h =
        find-prune ip_eq rl now ip state u
        ∙ sym (live-live rl start now (find ip_eq ip state) h)
        ∙ ap (live rl now) e

    spend-fresh :
        (now : ℕ) → spend rl now (fresh now) ≡ (record { window_start = now; count = 1 }, true)
    unfolding spend is_enabled
    spend-fresh now = let on' = on in ground arith

    check_first :
        (now : ℕ) (state : List (IpAddr × Bucket))
        → Unique ip_eq state
        → Rested state
        → start ≤ now
        → check ip_eq rl now ip state
          ≡ (put ip_eq ip (record { window_start = now; count = 1 }) (prune rl now state), true)
    unfolding check
    check_first now state u e h = rw (
      on,
      spend-live rl now (find ip_eq ip (prune rl now state)) on,
      Rested-at now state u e h,
      spend-fresh now,
    )

    live_of_rested :
        (now : ℕ) (o : Option Bucket)
        → live rl start o ≡ none
        → live rl start (live rl now o) ≡ none
    live_of_rested now none e = refl
    live_of_rested now (some b) e = ground arith

    Rested-pruned :
        (now : ℕ) (state : List (IpAddr × Bucket))
        → Unique ip_eq state
        → Rested state
        → Rested (prune rl now state)
    unfolding prune
    Rested-pruned now state u e = elim (Bool-cases (ltb 1024 (length state))) [
      | inl big ↦
          rw (big, find-retain ip_eq rl now ip state u) (live_of_rested now (find ip_eq ip state) e)
      | inr small ↦ rw small e
    ]

    Rested-other :
        (now : ℕ) (j : IpAddr) (state : List (IpAddr × Bucket))
        → Unique ip_eq state
        → Rested state
        → ip ≢ j
        → Rested (check ip_eq rl now j state).0
    unfolding check
    Rested-other now j state u e ne =
        rw (on, find-put_ne ip_eq j ip _ (prune rl now state) ne) (Rested-pruned now state u e)

    first_step :
        (now : ℕ) (rs : List (ℕ × IpAddr)) (state : List (IpAddr × Bucket))
        → Unique ip_eq state
        → Rested state
        → start ≤ now
        → ((state' : List (IpAddr × Bucket))
            → Unique ip_eq state'
            → find ip_eq ip state' ≡ some (record { window_start = now; count = 1 })
            → granted ip_eq rl ip state' rs ≡ min (requests_of ip_eq ip rs) (rl.max_requests - 1))
        → granted ip_eq rl ip state ((now, ip) ∷ rs)
          ≡ min (requests_of ip_eq ip ((now, ip) ∷ rs)) rl.max_requests
    unfolding is_enabled
    first_step now rs state u e h ih =
        let pruned = prune rl now state in
        let b : Bucket = record { window_start = now; count = 1 } in
        let next = put ip_eq ip b pruned in
        let up = prune-Unique ip_eq rl now state u in
        let rest = ih next (put-Unique ip_eq ip b pruned up) (find-put_self ip_eq ip b pruned) in
        let enabled = on in rw (check_first now state u e h) (ground arith)

    -- A client that has no current bucket when the window opens gets exactly its quota in that
    -- window, or all of its requests if they are fewer.
    pub granted-window :
        (rs : List (ℕ × IpAddr)) (state : List (IpAddr × Bucket))
        → Unique ip_eq state
        → Rested state
        → All (InWindow ip_eq rl on start ip) rs
        → granted ip_eq rl ip state rs ≡ min (requests_of ip_eq ip rs) rl.max_requests
    granted-window [] state u e w = omega arith
    granted-window ((now, j) ∷ rs) state u e (w, ws) = elim (ip_eq j ip) [
      | no p ↦
          let ne = λ (q : ip ≡ j). p (sym q) in
          let ih =
            granted-window rs (check ip_eq rl now j state).0
              (check-Unique ip_eq rl on start ip now state j u) (Rested-other now j state u e ne)
              ws in
          ground arith
      | yes p ↦ rw p (
          first_step now rs state u e w.0 (λ state' u1 e1.
            granted_left ip_eq rl on start ip rs state' (record { window_start = now; count = 1 })
              u1 e1 w.0 ws))
    ]
