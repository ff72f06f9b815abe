-- ===== src/Server/Steps.antt =====
-- The threads of src/main.rs at work: rounds of the UDP loop and of the TCP loop in any order, on
-- the one map of the limiter that they share.
use rustyalias.Common.{
  ℕ, ◌+◌, ◌≤◌, ◌≡◌, sym, ◌∙◌, List, [], Option, Bytes, Outcome, ret, take, Bool-cases, inl, inr,
  max, arith,
}
use rustyalias.Dnssec.Key.{Platform}
use rustyalias.Config.{Config}
use rustyalias.Query.{handle_query}
use rustyalias.Query.Sends.{handle_query-IsBounded}
use rustyalias.RateLimit.{Bucket, RateLimiter, check, new}
use rustyalias.RateLimit.Invariant.{IsValid, check-IsValid, check-recovers, IsValid-later}
use rustyalias.Server.{udp_buffer, Connection, serves, udp_round, tcp_round}
use rustyalias.Server.Rounds.{udp_round-IsBounded, tcp_buckets, tcp_round-Returns}

-- The shared map, and of each of the two threads the latest reading of the clock that it has brought
-- to `check`.
pub record World (IpAddr : Type 0) : Type 0 where
  pub udp_now : ℕ
  pub tcp_now : ℕ
  pub buckets : List (IpAddr × Bucket)

-- `main` at the start of its loops.
abbrev pub started : {IpAddr : Type 0} → ℕ → World IpAddr
started now = record { udp_now = now; tcp_now = now; buckets = [] }

-- The latest reading of either thread.
abbrev pub latest : {IpAddr : Type 0} → World IpAddr → ℕ
latest w = max w.udp_now w.tcp_now

module _ (P : Platform) {IpAddr : Type 0} (ip_eq : Discrete IpAddr) (config : Config P) where
  abbrev pub limiter : RateLimiter
  limiter = new config.rate_limit_seconds config.rate_limit_requests

  -- One round of one of the two loops, in the order in which they take the mutex. `check` reads the
  -- clock before it takes the mutex, so a round's reading is not before the earlier ones of its own
  -- thread, but may be before or after those of the other. A round of the TCP loop that stops the
  -- server is none.
  pub data Step (w w' : World IpAddr) : Type 0 where
    udp :
        (src : IpAddr) (datagram : Bytes) (sent : Option Bytes)
        → w.udp_now ≤ w'.udp_now
        → w.tcp_now ≡ w'.tcp_now
        → udp_round P ip_eq limiter w'.udp_now src datagram config w.buckets
          ≡ ret (w'.buckets, sent)
        → Step w w'
    tcp :
        (peer : IpAddr) (conn : Connection) (out : Bytes)
        → w.tcp_now ≤ w'.tcp_now
        → w.udp_now ≡ w'.udp_now
        → tcp_round P ip_eq limiter w'.tcp_now peer conn config w.buckets
          ≡ ret (w'.buckets, serves out)
        → Step w w'

  pub data Reach (w : World IpAddr) : World IpAddr → Type 0 where
    here : Reach w w
    next : {u v : World IpAddr} → Reach w u → Step u v → Reach w v

  same_buckets :
      {A : Type 0} {m m' : List (IpAddr × Bucket)} {a a' : A}
      → ◌≡◌ {A = Outcome (List (IpAddr × Bucket) × A)} (ret (m, a)) (ret (m', a'))
      → m ≡ m'
  same_buckets e = cc

  udp-buckets :
      (w w' : World IpAddr) (now : ℕ) (src : IpAddr) (datagram : Bytes) (sent : Option Bytes)
      → udp_round P ip_eq limiter now src datagram config w.buckets ≡ ret (w'.buckets, sent)
      → (check ip_eq limiter now src w.buckets).0 ≡ w'.buckets
  udp-buckets w w' now src datagram sent e =
      let (o, f, quiet, bounded) =
        udp_round-IsBounded P ip_eq config limiter now src datagram w.buckets in
      same_buckets (sym f ∙ e)

  tcp-buckets :
      (w w' : World IpAddr) (now : ℕ) (peer : IpAddr) (conn : Connection) (out : Bytes)
      → tcp_round P ip_eq limiter now peer conn config w.buckets ≡ ret (w'.buckets, serves out)
      → tcp_buckets P ip_eq config limiter now peer conn w.buckets ≡ w'.buckets
  tcp-buckets w w' now peer conn out e =
      let (served, f) = tcp_round-Returns P ip_eq config limiter now peer conn w.buckets in
      same_buckets (sym f ∙ e)

  abbrev pub Holds : World IpAddr → Type 0
  Holds w = IsValid ip_eq limiter (latest w) w.buckets

  tcp_buckets-IsValid :
      (hi now : ℕ) (peer : IpAddr) (conn : Connection) (m : List (IpAddr × Bucket))
      → now ≤ hi
      → IsValid ip_eq limiter hi m
      → IsValid ip_eq limiter hi (tcp_buckets P ip_eq config limiter now peer conn m)
  tcp_buckets-IsValid hi now peer conn m later v = elim (Bool-cases conn.peer_known) [
    | inl known ↦ rw known (check-IsValid ip_eq limiter hi now peer m later v)
    | inr unknown ↦ rw unknown v
  ]

  pub Step-Holds : {w w' : World IpAddr} → Step w w' → Holds w → Holds w'
  Step-Holds {w} {w'} (udp src datagram sent later same e) v =
      rw (← udp-buckets w w' w'.udp_now src datagram sent e) (
        check-IsValid ip_eq limiter (latest w') w'.udp_now src w.buckets (omega arith)
          (IsValid-later ip_eq limiter (latest w) (latest w') w.buckets (omega arith) v))
  Step-Holds {w} {w'} (tcp peer conn out later same e) v =
      rw (← tcp-buckets w w' w'.tcp_now peer conn out e) (
        tcp_buckets-IsValid (latest w') w'.tcp_now peer conn w.buckets (omega arith)
          (IsValid-later ip_eq limiter (latest w) (latest w') w.buckets (omega arith) v))

  -- However the rounds of the two loops follow one another, where the clock readings of each thread
  -- do not run back, but those of one may lie before those of the other: in every state that the
  -- server reaches each client has one bucket, with a count from one to the quota and a start that
  -- is not after the latest reading of either thread.
  pub Reach-Holds : {start : ℕ} {w : World IpAddr} → Reach (started start) w → Holds w
  Reach-Holds here = record { unique = tt; sound = tt }
  Reach-Holds (next r s) = Step-Holds s (Reach-Holds r)

  -- In every state that the server reaches, where the clock readings of each thread do not run back,
  -- each client is served by a round whose reading is a window after the latest reading of either
  -- thread: its datagram gets what `handle_query` makes of it.
  pub Reach-serves :
      {start : ℕ} {w : World IpAddr} (now : ℕ) (src : IpAddr) (datagram : Bytes)
      → Reach (started start) w
      → latest w + limiter.window ≤ now
      → (o : Option Bytes) × (handle_query P (take udp_buffer datagram) config ≡ ret o)
        × (udp_round P ip_eq limiter now src datagram config w.buckets
            ≡ ret ((check ip_eq limiter now src w.buckets).0, o))
  unfolding udp_round
  Reach-serves {start} {w} now src datagram r h =
      let (o, f, bounded) = handle_query-IsBounded P (take udp_buffer datagram) config in
      let v = Reach-Holds r in
      (o, f, rw (check-recovers ip_eq limiter (latest w) now src w.buckets v h, f))
