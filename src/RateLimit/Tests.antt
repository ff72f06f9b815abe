-- ===== src/RateLimit/Tests.antt =====
-- The theorems about src/rate_limit.rs at a limiter of two requests a second and clients that are
-- numbers.
use rustyalias.RateLimit.Invariant.{length-check, open_windows}
use rustyalias.Common.{
  length, max, ◌+◌, ◌≤◌, ℕ, ◌≡◌, refl, arith, true, inr, List, [], ◌∷◌, none, Option, min, All,
}
use native.Mathlib.Decide.{ℕ_discrete}
use rustyalias.RateLimit.{Bucket, RateLimiter, new, is_enabled, find, check}
use rustyalias.RateLimit.Buckets.{Unique}
use rustyalias.RateLimit.Quota.{requests_of, granted, InWindow, check_disabled}
use rustyalias.RateLimit.Window.{Rested, granted-window}
use rustyalias.RateLimit.Refines.{Refines, spec_check, check-Refines}

abbrev two_a_second : RateLimiter
two_a_second = new 1 2

two_a_second-is_enabled : is_enabled two_a_second ≡ true
unfolding is_enabled
two_a_second-is_enabled = refl

-- Four requests of the client 7 and one of the client 8, within a second.
abbrev requests : List (ℕ × ℕ)
requests =
    (5_000_000_500, 7)
    ∷ (5_000_000_600, 8)
    ∷ (5_000_000_700, 7)
    ∷ (5_000_000_700, 7)
    ∷ (5_000_000_900, 7)
    ∷ []

requests-InWindow :
    All (InWindow ℕ_discrete two_a_second two_a_second-is_enabled 5_000_000_000 7) requests
requests-InWindow = ground arith

-- An old bucket of the client 7.
abbrev old_state : List (ℕ × Bucket)
old_state = (7, record { window_start = 0; count = 2 }) ∷ []

old_state-Unique : Unique ℕ_discrete old_state
unfolding find
old_state-Unique = (refl, tt)

old_state-Rested : Rested ℕ_discrete two_a_second two_a_second-is_enabled 5_000_000_000 7 old_state
unfolding find ℕ_discrete
old_state-Rested = refl

granted-window_example :
    granted ℕ_discrete two_a_second 7 old_state requests
    ≡ min (requests_of ℕ_discrete 7 requests) two_a_second.max_requests
granted-window_example =
    granted-window ℕ_discrete two_a_second two_a_second-is_enabled 5_000_000_000 7 requests
      old_state old_state-Unique old_state-Rested requests-InWindow

disabled_allows : check ℕ_discrete (new 0 5) 100 7 old_state ≡ (old_state, true)
disabled_allows = check_disabled ℕ_discrete (new 0 5) 100 7 old_state (inr refl)

abbrev no_buckets : ℕ → Option Bucket
no_buckets j = none

new-Refines : Refines ℕ_discrete two_a_second 0 no_buckets []
unfolding find ℕ_discrete
new-Refines = record { unique = tt; same = λ j. refl }

check-Refines_example :
    ((check ℕ_discrete two_a_second 5 7 []).1
      ≡ (spec_check ℕ_discrete two_a_second 5 7 no_buckets).1)
    × Refines ℕ_discrete two_a_second 5
        (spec_check ℕ_discrete two_a_second 5 7 no_buckets).0
        (check ℕ_discrete two_a_second 5 7 []).0
check-Refines_example =
    check-Refines ℕ_discrete two_a_second two_a_second-is_enabled {t = 0} {now = 5} (omega arith)
      no_buckets [] new-Refines 7

length-check_example :
    length (check ℕ_discrete two_a_second 5_000_000_000 8 old_state).0
    ≤ max 1024 (open_windows ℕ_discrete two_a_second 5_000_000_000 old_state) + 1
length-check_example =
    length-check ℕ_discrete two_a_second 5_000_000_000 8 old_state two_a_second-is_enabled
