-- ===== src/Server.antt =====
-- src/main.rs: what becomes of one datagram and of one connection. The sockets are inputs: the
-- bytes that a client sends before it stops, and whether the calls on the socket succeed.
pub mod Start
pub mod Rounds
pub mod Stops
pub mod Steps
pub mod Tests
use rustyalias.Common.{
  ℕ, Bool, not, List, [], ◌++◌, Option, none, some, Bytes, leb, if◌then◌else◌, length, get_or, take,
  drop, from_be, be16, Outcome, ret, ◌>>=◌,
}
use rustyalias.Dnssec.Key.{Platform}
use rustyalias.Config.{Config}
use rustyalias.Query.{handle_query_internal, handle_query}
use rustyalias.RateLimit.{Bucket, RateLimiter, check}

-- `recv_from` with a buffer of 4096 bytes cuts a longer datagram.
abbrev pub udp_buffer : ℕ
udp_buffer = 4096

-- `read_exact`: the bytes read, and those left in the stream.
unfoldable pub read_exact : ℕ → Bytes → Option (Bytes × Bytes)
read_exact n stream = if leb n (length stream) then some (take n stream, drop n stream) else none

-- What the calls on a connection's socket do.
pub record Connection : Type 0 where
  pub peer_known : Bool
  pub sent : Bytes
  pub length_written : Bool
  pub response_written : Bool

-- The end of a round of the loop over connections: the server goes on, having written some bytes,
-- or `main` returns an error.
pub data Served : Type 0 where
  serves : Bytes → Served
  stops : Served

abbrev write_response : Connection → Bytes → Served
write_response conn response =
    if not conn.length_written
    then stops
    else if not conn.response_written
    then stops
    else serves (be16 (length response) ++ response)

module _ (P : Platform) where
  -- The body of the `if`s on `read_exact`.
  unfoldable pub serve_stream : Connection → Config P → Outcome Served
  serve_stream conn config = elim (read_exact 2 conn.sent) [
    | none ↦ ret (serves [])
    | some (length_buf, rest) ↦
        elim (read_exact (from_be (get_or length_buf 0 0) (get_or length_buf 1 0)) rest) [
          | none ↦ ret (serves [])
          | some (query, _) ↦ do
            response ← handle_query_internal P query config
            ret (write_response conn response)
        ]
  ]

module _ (P : Platform) {IpAddr : Type 0} (ip_eq : Discrete IpAddr) where
  -- One round of the UDP thread: the buckets, and the datagram that goes back.
  unfoldable pub udp_round :
      RateLimiter
      → ℕ
      → IpAddr
      → Bytes
      → Config P
      → List (IpAddr × Bucket)
      → Outcome (List (IpAddr × Bucket) × Option Bytes)
  udp_round rl now src datagram config state =
      let (state', allowed) = check ip_eq rl now src state in
      if not allowed
      then ret (state', none)
      else (do sent ← handle_query P (take udp_buffer datagram) config; ret (state', sent))

  -- One round of the loop over accepted connections.
  unfoldable pub tcp_round :
      RateLimiter
      → ℕ
      → IpAddr
      → Connection
      → Config P
      → List (IpAddr × Bucket)
      → Outcome (List (IpAddr × Bucket) × Served)
  tcp_round rl now peer conn config state =
      if not conn.peer_known
      then ret (state, stops)
      else (let (state', allowed) = check ip_eq rl now peer state in
          if not allowed
          then ret (state', serves [])
          else (do served ← serve_stream P conn config; ret (state', served)))
