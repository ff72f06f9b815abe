-- ===== src/Server/Stops.antt =====
-- What ends the server: the `?` on the calls of a connection's socket, in the loop of src/main.rs
-- over connections.
use rustyalias.Common.{
  ℕ, ◌/◌, ◌%◌, ◌≡◌, ◌↔◌, ◌⊎◌, inl, inr, sym, ap, ◌∙◌, arith, true, false, ◌&&◌, List, [], ◌∷◌, ◌++◌,
  Option, some, Bytes, length, length-take, take-append-drop, take, drop, get_or, leb, leb→le, All,
  IsByte, IsU16, be16, from_be, from_be-be16, Option-cases, Bool-cases, Outcome, ret,
}
use rustyalias.Dnssec.Key.{Platform}
use rustyalias.Config.{Config}
use rustyalias.Query.Handles.{handle_query_internal-Handled}
use rustyalias.RateLimit.{Bucket, RateLimiter, check}
use rustyalias.Server.{
  read_exact, Connection, Served, stops, write_response, serve_stream, tcp_round,
}
use rustyalias.Server.Rounds.{read_length, read_query, tcp_buckets, serve_stream-Returns}

-- The client has sent a whole query: a length, the bytes that it promises, and anything more.
abbrev pub SendsQuery : Bytes → Type 0
SendsQuery sent =
    (query : Bytes) × (rest : Bytes) × IsU16 (length query)
    × (sent ≡ be16 (length query) ++ (query ++ rest))

both_parts : (p q : Bytes × Bytes) → ◌≡◌ {A = Option (Bytes × Bytes)} (some p) (some q) → p ≡ q
both_parts p q e = cc

read_exact-some :
    (n : ℕ) (s head rest : Bytes)
    → read_exact n s ≡ some (head, rest)
    → (s ≡ head ++ rest) × (length head ≡ n)
unfolding read_exact
read_exact-some n s head rest e = elim (Bool-cases (leb n (length s))) [
  | inl enough ↦
      let le = leb→le n (length s) enough in
      let pair = both_parts _ _ (rw enough at e) in
      let first : take n s ≡ head = ap (λ p. p.0) pair in
      let second : drop n s ≡ rest = ap (λ p. p.1) pair in
      (
        sym (take-append-drop n s) ∙ rw (first, second),
        sym (ap length first) ∙ length-take n s ∙ omega arith,
      )
  | inr short ↦ cc (rw short at e)
]

framed_length :
    (head rest query left : Bytes)
    → All IsByte (head ++ rest)
    → length head ≡ 2
    → rest ≡ query ++ left
    → length query ≡ from_be (get_or head 0 0) (get_or head 1 0)
    → SendsQuery (head ++ rest)
framed_length (x ∷ y ∷ []) rest query left (hx, (hy, hs)) l e n =
    let high : length query / 256 % 256 ≡ x = omega arith in
    let low : length query % 256 ≡ y = omega arith in (query, left, omega arith, rw (high, low, e))
framed_length [] rest query left h l e n = absurd (omega arith)
framed_length (x ∷ []) rest query left h l e n = absurd (omega arith)
framed_length (x ∷ y ∷ z ∷ head) rest query left h l e n = absurd (omega arith)

module _ (P : Platform) (config : Config P) where
  writes_fail :
      (conn : Connection) (r : Bytes)
      → write_response conn r ≡ stops
      → (conn.length_written && conn.response_written) ≡ false
  writes_fail conn r e = elim (Bool-cases conn.length_written) [
    | inr lost ↦ rw lost
    | inl first ↦ elim (Bool-cases conn.response_written) [
      | inr lost ↦ rw (first, lost)
      | inl second ↦ cc (rw (first, second) at e)
    ]
  ]

  write_response-stops :
      (conn : Connection) (r : Bytes)
      → (conn.length_written && conn.response_written) ≡ false
      → write_response conn r ≡ stops
  write_response-stops conn r e = elim (Bool-cases conn.length_written) [
    | inr lost ↦ rw lost
    | inl first ↦ let lost : conn.response_written ≡ false = rw first at e in rw (first, lost)
  ]

  -- The round ends the server only behind a whole query whose response cannot be written.
  serve_stream_sound :
      (conn : Connection)
      → All IsByte conn.sent
      → serve_stream P conn config ≡ ret stops
      → SendsQuery conn.sent × ((conn.length_written && conn.response_written) ≡ false)
  unfolding serve_stream
  serve_stream_sound conn h e = elim (Option-cases (read_exact 2 conn.sent)) [
    | inl none2 ↦ cc (rw (none2, serve_stream) at e)
    | inr ((head, rest), some2) ↦
        elim (Option-cases (read_exact (from_be (get_or head 0 0) (get_or head 1 0)) rest)) [
          | inl none_n ↦ cc (rw (serve_stream, some2, none_n) at e)
          | inr ((query, left), some_n) ↦
              let (r, f, w) = handle_query_internal-Handled P query config in
              let (cut, two) = read_exact-some 2 conn.sent head rest some2 in
              let (cut', n) = read_exact-some _ rest query left some_n in
              let stopped = rw (serve_stream, some2, some_n, f) at e in
              (
                rw cut (framed_length head rest query left (rw cut at h) two cut' n),
                writes_fail conn r (ret_injective _ _ stopped),
              )
        ]
  ]
    where
      ret_injective : (a b : Served) → ◌≡◌ {A = Outcome Served} (ret a) (ret b) → a ≡ b
      ret_injective a b e = cc

  serve_stream_complete :
      (conn : Connection)
      → SendsQuery conn.sent
      → (conn.length_written && conn.response_written) ≡ false
      → serve_stream P conn config ≡ ret stops
  unfolding serve_stream
  serve_stream_complete conn (query, rest, h, e) fails =
      let (r, f, w) = handle_query_internal-Handled P query config in
      rw (
        serve_stream,
        ap (read_exact 2) e ∙ read_length P config (length query) (query ++ rest),
        from_be-be16 (length query) h,
        read_query P config query rest,
        f,
        write_response-stops conn r fails,
      )

module _ (P : Platform) {IpAddr : Type 0} (ip_eq : Discrete IpAddr) (config : Config P) where
  -- The address of the peer is unknown, or the limiter lets the connection through, the client has
  -- sent a whole query, and one of the two writes of the response fails.
  abbrev pub Ends : RateLimiter → ℕ → IpAddr → Connection → List (IpAddr × Bucket) → Type 0
  Ends rl now peer conn state =
      (conn.peer_known ≡ false)
      ⊎ (((check ip_eq rl now peer state).1 ≡ true)
          × SendsQuery conn.sent
          × ((conn.length_written && conn.response_written) ≡ false))

  sound :
      (rl : RateLimiter) (now : ℕ) (peer : IpAddr) (conn : Connection)
      (state : List (IpAddr × Bucket))
      → All IsByte conn.sent
      → tcp_round P ip_eq rl now peer conn config state
        ≡ ret (tcp_buckets P ip_eq config rl now peer conn state, stops)
      → Ends rl now peer conn state
  unfolding tcp_round
  sound rl now peer conn state h e = elim (Bool-cases conn.peer_known) [
    | inr unknown ↦ inl unknown
    | inl known ↦ elim (Bool-cases (check ip_eq rl now peer state).1) [
      | inr refused ↦ cc (rw (known, refused) at e)
      | inl allowed ↦
          let (served, f) = serve_stream-Returns P ip_eq config conn in
          let stopped = second_part _ _ (simp (known, allowed, f) at e) in
          let (sends, fails) = serve_stream_sound P config conn h (f ∙ ap ret stopped) in
          inr (allowed, sends, fails)
    ]
  ]
    where
      second_part :
          (a b : List (IpAddr × Bucket) × Served)
          → ◌≡◌ {A = Outcome (List (IpAddr × Bucket) × Served)} (ret a) (ret b)
          → a.1 ≡ b.1
      second_part a b q = cc

  complete :
      (rl : RateLimiter) (now : ℕ) (peer : IpAddr) (conn : Connection)
      (state : List (IpAddr × Bucket))
      → Ends rl now peer conn state
      → tcp_round P ip_eq rl now peer conn config state
        ≡ ret (tcp_buckets P ip_eq config rl now peer conn state, stops)
  unfolding tcp_round
  complete rl now peer conn state (inl unknown) = rw unknown
  complete rl now peer conn state (inr (allowed, sends, fails)) =
      elim (Bool-cases conn.peer_known) [
        | inr unknown ↦ rw unknown
        | inl known ↦ simp (known, allowed, serve_stream_complete P config conn sends fails)
      ]

  -- What ends the server in a round of the loop over connections: the address of the peer is unknown,
  -- or the limiter lets the connection through, the client has sent a whole query, and one of the two
  -- writes of the response fails.
  pub tcp_round-stops_iff :
      (rl : RateLimiter) (now : ℕ) (peer : IpAddr) (conn : Connection)
      (state : List (IpAddr × Bucket))
      → All IsByte conn.sent
      → (tcp_round P ip_eq rl now peer conn config state
          ≡ ret (tcp_buckets P ip_eq config rl now peer conn state, stops))
        ↔ Ends rl now peer conn state
  tcp_round-stops_iff rl now peer conn state h =
      (sound rl now peer conn state h, complete rl now peer conn state)
