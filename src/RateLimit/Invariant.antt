-- ===== src/RateLimit/Invariant.antt =====
-- What holds of the limiter's map in every state: one bucket for a client, each with a count from
-- one to the quota, and none from the future.
use rustyalias.Common.{
  ◌∙◌, ℕ, ◌+◌, ◌≤◌, ◌≡◌, refl, arith, true, List, [], ◌∷◌, none, Bool-cases, inl, inr, ltb, ltb_ge,
  if◌then◌else◌, max, length, unwrap_or, All,
}
use mathlib.Core.Logic.{if_pos, if_neg}
use rustyalias.RateLimit.{
  Bucket, RateLimiter, is_current, is_enabled, find, put, retain, prune, fresh, spend, check,
}
use rustyalias.RateLimit.Buckets.{Unique, live, put-Unique, prune-Unique}
use rustyalias.RateLimit.Refines.{spend-live, find-prune}

abbrev pub IsSound : RateLimiter → ℕ → Bucket → Type 0
IsSound rl now b = (1 ≤ b.count) × (b.count ≤ rl.max_requests) × (b.window_start ≤ now)

pub spend-IsSound :
    (rl : RateLimiter) (hi now : ℕ) (b : Bucket)
    → is_enabled rl ≡ true
    → now ≤ hi
    → IsSound rl hi b
    → IsSound rl hi (spend rl now b).0
unfolding spend is_enabled
spend-IsSound rl hi now b on later h = ground arith

pub spend-fresh-IsSound :
    (rl : RateLimiter) (hi now : ℕ)
    → is_enabled rl ≡ true
    → now ≤ hi
    → IsSound rl hi (spend rl now (fresh now)).0
unfolding spend is_enabled
spend-fresh-IsSound rl hi now on later = ground arith

module _ {IpAddr : Type 0} (ip_eq : Discrete IpAddr) (rl : RateLimiter) where
  abbrev pub AllSound : ℕ → List (IpAddr × Bucket) → Type 0
  AllSound now m = All (λ (e : IpAddr × Bucket). IsSound rl now e.1) m

  pub AllSound-later :
      (t now : ℕ) (m : List (IpAddr × Bucket)) → t ≤ now → AllSound t m → AllSound now m
  AllSound-later t now [] h s = tt
  AllSound-later t now ((j, b) ∷ m) h (s, ss) = (omega arith, AllSound-later t now m h ss)

  put-AllSound :
      (now : ℕ) (ip : IpAddr) (b : Bucket) (m : List (IpAddr × Bucket))
      → IsSound rl now b
      → AllSound now m
      → AllSound now (put ip_eq ip b m)
  unfolding put
  put-AllSound now ip b [] s ss = (s, tt)
  put-AllSound now ip b ((j, c) ∷ m) s (h, ss) = elim (ip_eq ip j) [
    | yes p ↦ rw (if_pos _ p) (s, ss)
    | no p ↦ rw (if_neg _ p) (h, put-AllSound now ip b m s ss)
  ]

  retain-AllSound :
      (t now : ℕ) (m : List (IpAddr × Bucket)) → AllSound t m → AllSound t (retain rl now m)
  unfolding retain
  retain-AllSound t now [] ss = tt
  retain-AllSound t now ((j, b) ∷ m) (h, ss) =
      let rest = retain-AllSound t now m ss in
      elim (Bool-cases (is_current rl now b)) [ inl y ↦ rw y (h, rest) | inr n ↦ rw n rest ]

  prune-AllSound :
      (t now : ℕ) (m : List (IpAddr × Bucket)) → AllSound t m → AllSound t (prune rl now m)
  unfolding prune
  prune-AllSound t now m ss = elim (Bool-cases (ltb 1024 (length m))) [
    | inl big ↦ rw big (retain-AllSound t now m ss)
    | inr small ↦ rw small ss
  ]

  spend_found-IsSound :
      (hi now : ℕ) (ip : IpAddr) (m : List (IpAddr × Bucket))
      → is_enabled rl ≡ true
      → now ≤ hi
      → AllSound hi m
      → IsSound rl hi (spend rl now (unwrap_or (find ip_eq ip m) (fresh now))).0
  unfolding find
  spend_found-IsSound hi now ip [] on later ss = spend-fresh-IsSound rl hi now on later
  spend_found-IsSound hi now ip ((j, b) ∷ m) on later (h, ss) = elim (ip_eq ip j) [
    | yes p ↦ rw (if_pos _ p) (spend-IsSound rl hi now b on later h)
    | no p ↦ rw (if_neg _ p) (spend_found-IsSound hi now ip m on later ss)
  ]

  -- The map is well formed for the readings of the clock up to `hi`.
  pub record IsValid (hi : ℕ) (m : List (IpAddr × Bucket)) : Type 0 where
    pub unique : Unique ip_eq m
    pub sound : AllSound hi m

  pub IsValid-later : (t hi : ℕ) (m : List (IpAddr × Bucket)) → t ≤ hi → IsValid t m → IsValid hi m
  IsValid-later t hi m later v = record {
    unique = v.unique;
    sound = AllSound-later t hi m later v.sound;
  }

  -- A request keeps the map well formed, wherever its reading of the clock stands among the earlier
  -- ones: each client has one bucket, with a count from one to the quota and a start that is not
  -- after the latest reading.
  pub check-IsValid :
      (hi now : ℕ) (ip : IpAddr) (m : List (IpAddr × Bucket))
      → now ≤ hi
      → IsValid hi m
      → IsValid hi (check ip_eq rl now ip m).0
  unfolding check
  check-IsValid hi now ip m later v = elim (Bool-cases (is_enabled rl)) [
    | inl on ↦
        let pruned = prune-AllSound hi now m v.sound in
        rw on (record {
          unique = put-Unique ip_eq ip _ (prune rl now m) (prune-Unique ip_eq rl now m v.unique);
          sound =
              put-AllSound hi ip _ (prune rl now m)
                (spend_found-IsSound hi now ip (prune rl now m) on later pruned) pruned;
        })
    | inr off ↦ rw off v
  ]

  stale :
      (t now : ℕ) (ip : IpAddr) (m : List (IpAddr × Bucket))
      → t + rl.window ≤ now
      → AllSound t m
      → live rl now (find ip_eq ip m) ≡ none
  unfolding find
  stale t now ip [] h ss = refl
  stale t now ip ((j, b) ∷ m) h (s, ss) = elim (ip_eq ip j) [
    | yes p ↦ rw (if_pos _ p) (ground arith)
    | no p ↦ rw (if_neg _ p) (stale t now ip m h ss)
  ]

  spend-fresh_allowed : (now : ℕ) → is_enabled rl ≡ true → (spend rl now (fresh now)).1 ≡ true
  unfolding spend is_enabled
  spend-fresh_allowed now on = ground arith

  -- No client is locked out: a window after the last request that the map has seen, `check` allows
  -- every client.
  pub check-recovers :
      (t now : ℕ) (ip : IpAddr) (m : List (IpAddr × Bucket))
      → IsValid t m
      → t + rl.window ≤ now
      → (check ip_eq rl now ip m).1 ≡ true
  unfolding check
  check-recovers t now ip m v h = elim (Bool-cases (is_enabled rl)) [
    | inr off ↦ rw off
    | inl on ↦
        let nothing = find-prune ip_eq rl now ip m v.unique ∙ stale t now ip m h v.sound in
        rw (on, spend-live rl now (find ip_eq ip (prune rl now m)) on, nothing)
          (spend-fresh_allowed now on)
  ]

  length-put :
      (ip : IpAddr) (b : Bucket) (m : List (IpAddr × Bucket))
      → length (put ip_eq ip b m) ≤ length m + 1
  unfolding put
  length-put ip b [] = omega arith
  length-put ip b ((j, c) ∷ m) = elim (ip_eq ip j) [
    | yes p ↦ rw (if_pos _ p) (omega arith)
    | no p ↦ rw (if_neg _ p) (omega (arith, length-put ip b m))
  ]

  length-prune :
      (now : ℕ) (m : List (IpAddr × Bucket))
      → length (prune rl now m) ≤ max 1024 (length (retain rl now m))
  unfolding prune
  length-prune now m = elim (Bool-cases (ltb 1024 (length m))) [
    | inl big ↦ rw big (omega arith)
    | inr small ↦ rw small (omega (arith, ltb_ge 1024 (length m) small))
  ]

  -- The entries of the map whose window has not ended at the time `now`.
  abbrev pub open_windows : ℕ → List (IpAddr × Bucket) → ℕ
  open_windows now [] = 0
  open_windows now ((ip, b) ∷ m) =
      open_windows now m + (if ltb now (b.window_start + rl.window) then 1 else 0)

  length-retain :
      (now : ℕ) (m : List (IpAddr × Bucket))
      → is_enabled rl ≡ true
      → length (retain rl now m) ≡ open_windows now m
  unfolding retain is_enabled
  length-retain now [] on = refl
  length-retain now ((j, b) ∷ m) on = ground (arith, length-retain now m on)

  -- The map stays small: after a request to an enabled limiter it holds at most one bucket more than
  -- 1024, or than there were buckets whose window had not ended at the time of the request.
  pub length-check :
      (now : ℕ) (ip : IpAddr) (m : List (IpAddr × Bucket))
      → is_enabled rl ≡ true
      → length (check ip_eq rl now ip m).0 ≤ max 1024 (open_windows now m) + 1
  unfolding check
  length-check now ip m on = rw on (
      omega (
        arith,
        length-put ip (spend rl now (unwrap_or (find ip_eq ip (prune rl now m)) (fresh now))).0
            (prune rl now m),
        length-prune now m,
        length-retain now m on,
      ))
