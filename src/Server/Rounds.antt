-- ===== src/Server/Rounds.antt =====
-- The two loops of src/main.rs, one round at a time.
use rustyalias.Common.{
  Option-cases, Returns, ◌≤◌, ◌<◌, ◌∷◌, ◌==◌, [], if◌then◌else◌, from_be, get_or, ℕ, ◌≡◌, ◌⊎◌, inl,
  inr, refl, arith, true, List, ◌++◌, Option, none, some, Bytes, length, take, le→leb, from_be-be16,
  be16, IsU16, Bool-cases, ret, length-append, take-append_self, drop-append_self,
}
use rustyalias.Dnssec.Key.{Platform}
use rustyalias.Config.{Config}
use rustyalias.Query.{handle_query_internal}
use rustyalias.Query.Handles.{handle_query_internal-Handled}
use rustyalias.Query.Sends.{IsBounded, handle_query-IsBounded}
use rustyalias.RateLimit.{Bucket, RateLimiter, check}
use rustyalias.Server.{
  udp_buffer, read_exact, Connection, Served, serves, stops, write_response, serve_stream,
  udp_round, tcp_round,
}

-- What a client takes from a stream that holds one message behind a length of two bytes.
abbrev pub unframe : Bytes → Option Bytes
unframe (high ∷ low ∷ message) = if length message == from_be high low then some message else none
unframe _ = none

abbrev pub ReadsBack : Bytes → Bytes → Type 0
ReadsBack r out =
    ((length r < 65536) × (unframe out ≡ some r)) ⊎ ((65536 ≤ length r) × (unframe out ≡ none))

be16-ReadsBack : (r : Bytes) → ReadsBack r (be16 (length r) ++ r)
be16-ReadsBack r = ground arith

module _ (P : Platform) {IpAddr : Type 0} (ip_eq : Discrete IpAddr) (config : Config P) where
  -- A round of the UDP loop returns for every datagram. It leaves the buckets as `check` does, and
  -- sends nothing if `check` refuses; what it sends is no longer than the limit for the query, or
  -- no longer than the query.
  pub udp_round-IsBounded :
      (rl : RateLimiter) (now : ℕ) (src : IpAddr) (datagram : Bytes)
      (state : List (IpAddr × Bucket))
      → (o : Option Bytes) × (udp_round P ip_eq rl now src datagram config state
          ≡ ret ((check ip_eq rl now src state).0, o))
        × ((o ≡ none) ⊎ ((check ip_eq rl now src state).1 ≡ true))
        × IsBounded (take udp_buffer datagram) o
  unfolding udp_round
  udp_round-IsBounded rl now src datagram state =
      elim (Bool-cases (check ip_eq rl now src state).1) [
        | inl allowed ↦
            let (o, f, h) = handle_query-IsBounded P (take udp_buffer datagram) config in
            rw (allowed, f) (o, refl, inr refl, h)
        | inr refused ↦ rw refused (none, refl, inl refl, tt)
      ]

module _ (P : Platform) (config : Config P) where
  pub read_length : (n : ℕ) (rest : Bytes) → read_exact 2 (be16 n ++ rest) ≡ some (be16 n, rest)
  unfolding read_exact
  read_length n rest = ground arith

  pub read_query :
      (query rest : Bytes) → read_exact (length query) (query ++ rest) ≡ some (query, rest)
  unfolding read_exact
  read_query query rest = rw (
    le→leb (length query) (length (query ++ rest)) (omega (arith, length-append query rest)),
    take-append_self query rest,
    drop-append_self query rest,
  )

  -- A query of less than 65536 bytes behind its length, and anything behind it, is answered by
  -- what `handle_query_internal` makes of it behind two bytes of length, if both writes succeed. A
  -- client reads a response of less than 65536 bytes back from that; of a longer one the length has
  -- wrapped around, and it reads none.
  pub serve_stream-framed :
      (query rest : Bytes)
      → IsU16 (length query)
      → (r : Bytes) × (handle_query_internal P query config ≡ ret r)
        × (serve_stream P
              (record {
                peer_known = true;
                sent = be16 (length query) ++ (query ++ rest);
                length_written = true;
                response_written = true;
              })
              config
            ≡ ret (serves (be16 (length r) ++ r)))
        × ReadsBack r (be16 (length r) ++ r)
  unfolding serve_stream
  serve_stream-framed query rest h =
      let (r, f, w) = handle_query_internal-Handled P query config in
      (
        r,
        f,
        rw (
          serve_stream,
          read_length (length query) (query ++ rest),
          from_be-be16 (length query) h,
          read_query query rest,
          f,
        ),
        be16-ReadsBack r,
      )

module _ (P : Platform) {IpAddr : Type 0} (ip_eq : Discrete IpAddr) (config : Config P) where
  pub serve_stream-Returns : (conn : Connection) → Returns (serve_stream P conn config)
  unfolding serve_stream
  serve_stream-Returns conn = elim (Option-cases (read_exact 2 conn.sent)) [
    | inl e ↦ (serves [], rw (e, serve_stream))
    | inr ((head, rest), e) ↦
        elim (Option-cases (read_exact (from_be (get_or head 0 0) (get_or head 1 0)) rest)) [
          | inl e' ↦ (serves [], rw (serve_stream, e, e'))
          | inr ((query, left), e') ↦
              let (r, f, w) = handle_query_internal-Handled P query config in
              (write_response conn r, rw (serve_stream, e, e', f))
        ]
  ]

  -- What a round of the TCP loop leaves of the buckets: `check` is called once the peer is known.
  abbrev pub tcp_buckets :
      RateLimiter → ℕ → IpAddr → Connection → List (IpAddr × Bucket) → List (IpAddr × Bucket)
  tcp_buckets rl now peer conn state =
      if conn.peer_known then (check ip_eq rl now peer state).0 else state

  -- A round of the TCP loop returns for every connection, whatever its bytes and however its writes
  -- go, and leaves the buckets as `check` does, or as they were where the peer's address is unknown.
  pub tcp_round-Returns :
      (rl : RateLimiter) (now : ℕ) (peer : IpAddr) (conn : Connection)
      (state : List (IpAddr × Bucket))
      → (served : Served) × (tcp_round P ip_eq rl now peer conn config state
          ≡ ret (tcp_buckets rl now peer conn state, served))
  unfolding tcp_round
  tcp_round-Returns rl now peer conn state = elim (Bool-cases conn.peer_known) [
    | inr unknown ↦ (stops, rw unknown)
    | inl known ↦ elim (Bool-cases (check ip_eq rl now peer state).1) [
      | inr refused ↦ (serves [], rw (known, refused))
      | inl allowed ↦
          let (served, f) = serve_stream-Returns conn in (served, simp (known, allowed, f))
    ]
  ]
