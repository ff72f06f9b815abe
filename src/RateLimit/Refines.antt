-- ===== src/RateLimit/Refines.antt =====
-- The limiter against a map that forgets nothing: pruning is never seen in an answer.
use rustyalias.Common.{
  ℕ, ◌≤◌, ◌≡◌, refl, sym, ◌∙◌, ap, arith, Bool, true, List, Option, none, some, Bool-cases, inl,
  inr, ltb, length, unwrap_or,
}
use mathlib.Core.Logic.{ite, if_pos, if_neg}
use rustyalias.RateLimit.{Bucket, RateLimiter, is_enabled, find, put, prune, fresh, spend, check}
use rustyalias.RateLimit.Buckets.{
  live, Unique, find-put_self, find-put_ne, put-Unique, find-retain, prune-Unique,
}

-- What a request does to a bucket depends on it only while its window is current.
pub spend-live :
    (rl : RateLimiter) (now : ℕ) (o : Option Bucket)
    → is_enabled rl ≡ true
    → spend rl now (unwrap_or o (fresh now)) ≡ spend rl now (unwrap_or (live rl now o) (fresh now))
unfolding spend is_enabled
spend-live rl now none on = refl
spend-live rl now (some b) on = ground arith

pub live-live :
    (rl : RateLimiter) (t now : ℕ) (o : Option Bucket)
    → t ≤ now
    → live rl now (live rl t o) ≡ live rl now o
live-live rl t now none h = refl
live-live rl t now (some b) h = ground arith

module _ {IpAddr : Type 0} (ip_eq : Discrete IpAddr) where
  -- The specification: each client's last bucket, in a map that is never pruned.
  abbrev pub spec_check :
      RateLimiter → ℕ → IpAddr → (IpAddr → Option Bucket) → (IpAddr → Option Bucket) × Bool
  spec_check rl now ip v =
      let (b, allowed) = spend rl now (unwrap_or (v ip) (fresh now)) in
      (λ j. ite (ip_eq j ip) (some b) (v j), allowed)

  -- At the time `t` the map and the specification have the same current buckets.
  pub record Refines (rl : RateLimiter) (t : ℕ) (v : IpAddr → Option Bucket)
      (state : List (IpAddr × Bucket)) : Type 0 where
    pub unique : Unique ip_eq state
    pub same : (j : IpAddr) → live rl t (find ip_eq j state) ≡ live rl t (v j)

  pub find-prune :
      (rl : RateLimiter) (now : ℕ) (j : IpAddr) (m : List (IpAddr × Bucket))
      → Unique ip_eq m
      → live rl now (find ip_eq j (prune rl now m)) ≡ live rl now (find ip_eq j m)
  unfolding prune
  find-prune rl now j m u = elim (Bool-cases (ltb 1024 (length m))) [
    | inl big ↦
        rw (big, find-retain ip_eq rl now j m u)
          (live-live rl now now (find ip_eq j m) (omega arith))
    | inr small ↦ rw small
  ]

  module _ (rl : RateLimiter) (on : is_enabled rl ≡ true) {t now : ℕ} (later : t ≤ now)
      (v : IpAddr → Option Bucket) (state : List (IpAddr × Bucket)) (r : Refines rl t v state) where
    same_now : (j : IpAddr) → live rl now (find ip_eq j (prune rl now state)) ≡ live rl now (v j)
    same_now j =
        find-prune rl now j state r.unique
        ∙ sym (live-live rl t now (find ip_eq j state) later)
        ∙ ap (live rl now) (r.same j)
        ∙ live-live rl t now (v j) later

    same_spend :
        (ip : IpAddr)
        → spend rl now (unwrap_or (find ip_eq ip (prune rl now state)) (fresh now))
          ≡ spend rl now (unwrap_or (v ip) (fresh now))
    same_spend ip =
        spend-live rl now (find ip_eq ip (prune rl now state)) on
        ∙ ap (λ o. spend rl now (unwrap_or o (fresh now))) (same_now ip)
        ∙ sym (spend-live rl now (v ip) on)

    same_after :
        (ip j : IpAddr) (b : Bucket)
        → live rl now (find ip_eq j (put ip_eq ip b (prune rl now state)))
          ≡ live rl now (ite (ip_eq j ip) (some b) (v j))
    same_after ip j b = elim (ip_eq j ip) [
      | yes p ↦ rw (if_pos _ p, p, find-put_self ip_eq ip b (prune rl now state))
      | no p ↦ rw (if_neg _ p, find-put_ne ip_eq ip j b (prune rl now state) p) (same_now j)
    ]

    check_lem :
        (ip : IpAddr)
        → check ip_eq rl now ip state ≡ (
            let (b, allowed) = spend rl now (unwrap_or (v ip) (fresh now)) in
            (put ip_eq ip b (prune rl now state), allowed))
    unfolding check
    check_lem ip = rw (on, same_spend ip)

    -- With an enabled limiter and time that does not run back, `check` answers as the map that is
    -- never pruned does, and the two agree on the current buckets again afterwards.
    pub check-Refines :
        (ip : IpAddr)
        → ((check ip_eq rl now ip state).1 ≡ (spec_check rl now ip v).1)
          × Refines rl now (spec_check rl now ip v).0 (check ip_eq rl now ip state).0
    check-Refines ip =
        let (b, allowed) = spend rl now (unwrap_or (v ip) (fresh now)) in
        rw (check_lem ip) (
          refl,
          record {
            unique = put-Unique ip_eq ip b _ (prune-Unique ip_eq rl now state r.unique);
            same = λ j. same_after ip j b;
          },
        )
