-- ===== src/Server/Tests.antt =====
-- The theorems about the loops of src/main.rs at one query.
use native.Mathlib.Decide.{ℕ_discrete}
use rustyalias.Common.{
  ℕ, refl, ◌≡◌, ◌↔◌, ◌⊎◌, ◌++◌, [], ◌∷◌, true, false, Option, none, Bytes, length, take, be16,
  arith, ret,
}
use rustyalias.Query.{handle_query_internal, handle_query}
use rustyalias.Query.Sends.{IsBounded}
use rustyalias.Query.Tests.{stand_in, test_config, test_query}
use rustyalias.RateLimit.{new, check, is_enabled, prune, put, find, spend, retain}
use rustyalias.Config.{Config}
use rustyalias.Server.Steps.{
  World, started, limiter, Step, udp, tcp, next, here, Holds, Reach-Holds, Reach-serves,
}
use rustyalias.Server.{
  Connection, stops, tcp_round, udp_buffer, serves, serve_stream, udp_round, read_exact,
}
use rustyalias.Server.Stops.{Ends, tcp_round-stops_iff}
use rustyalias.Server.Rounds.{udp_round-IsBounded, ReadsBack, serve_stream-framed, tcp_buckets}

udp_round-IsBounded_example :
    (o : Option Bytes) × (udp_round stand_in ℕ_discrete
        (new 1 2)
        0
        7
        (test_query 255)
        test_config
        []
      ≡ ret ((check ℕ_discrete (new 1 2) 0 7 []).0, o))
    × ((o ≡ none) ⊎ ((check ℕ_discrete (new 1 2) 0 7 []).1 ≡ true))
    × IsBounded (take udp_buffer (test_query 255)) o
udp_round-IsBounded_example =
    udp_round-IsBounded stand_in ℕ_discrete test_config (new 1 2) 0 7 (test_query 255) []

serve_stream-framed_example :
    (r : Bytes) × (handle_query_internal stand_in (test_query 1) test_config ≡ ret r)
    × (serve_stream stand_in
          (record {
            peer_known = true;
            sent = be16 (length (test_query 1)) ++ (test_query 1 ++ (7 ∷ []));
            length_written = true;
            response_written = true;
          })
          test_config
        ≡ ret (serves (be16 (length r) ++ r)))
    × ReadsBack r (be16 (length r) ++ r)
serve_stream-framed_example =
    serve_stream-framed stand_in test_config (test_query 1) (7 ∷ []) (omega arith)

abbrev limited : Config stand_in
limited = record test_config { rate_limit_seconds = 1; rate_limit_requests = 2 }

-- After a query of the client 7 over UDP at the time 5, and one of the client 8 over TCP whose
-- reading of the clock, 4, is before that.
abbrev first_world : World ℕ
first_world = record {
  udp_now = 5;
  tcp_now = 3;
  buckets = (check ℕ_discrete (limiter stand_in ℕ_discrete limited) 5 7 []).0;
}

-- A client that connects and sends nothing.
abbrev silent_connection : Connection
silent_connection = record {
  peer_known = true;
  sent = [];
  length_written = true;
  response_written = true;
}

abbrev second_world : World ℕ
second_world = record {
  udp_now = 5;
  tcp_now = 4;
  buckets = (check ℕ_discrete (limiter stand_in ℕ_discrete limited) 4 8 first_world.buckets).0;
}

first-Step : Step stand_in ℕ_discrete limited (started 3) first_world
first-Step =
    let (o, e, quiet, bounded) =
      udp_round-IsBounded stand_in ℕ_discrete limited (limiter stand_in ℕ_discrete limited) 5 7
        (test_query 1) [] in
    udp 7 (test_query 1) o (omega arith) refl e

silent_round :
    tcp_round stand_in ℕ_discrete
      (limiter stand_in ℕ_discrete limited)
      4
      8
      silent_connection
      limited
      first_world.buckets
    ≡ ret (second_world.buckets, serves [])
unfolding tcp_round serve_stream read_exact check is_enabled prune put find spend retain ℕ_discrete
silent_round = refl

second-Step : Step stand_in ℕ_discrete limited first_world second_world
second-Step = tcp 8 silent_connection [] (omega arith) refl silent_round

Reach-Holds_example : Holds stand_in ℕ_discrete limited second_world
Reach-Holds_example =
    Reach-Holds stand_in ℕ_discrete limited {start = 3} {w = second_world}
      (next (next here first-Step) second-Step)

Reach-serves_example :
    (o : Option Bytes) × (handle_query stand_in (take udp_buffer (test_query 28)) limited ≡ ret o)
    × (udp_round stand_in ℕ_discrete
          (limiter stand_in ℕ_discrete limited)
          2_000_000_000
          7
          (test_query 28)
          limited
          second_world.buckets
        ≡ ret (
          (check ℕ_discrete
              (limiter stand_in ℕ_discrete limited)
              2_000_000_000
              7
              second_world.buckets).0,
          o,
        ))
Reach-serves_example =
    Reach-serves stand_in ℕ_discrete limited {start = 3} {w = second_world} 2_000_000_000 7
      (test_query 28) (next (next here first-Step) second-Step) (omega arith)

-- A client that sends a whole query and resets its connection before the response.
abbrev reset_connection : Connection
reset_connection = record {
  peer_known = true;
  sent = be16 (length (test_query 1)) ++ (test_query 1 ++ []);
  length_written = true;
  response_written = false;
}

tcp_round-stops_iff_example :
    (tcp_round stand_in ℕ_discrete (new 1 2) 5 7 reset_connection test_config []
      ≡ ret (tcp_buckets stand_in ℕ_discrete test_config (new 1 2) 5 7 reset_connection [], stops))
    ↔ Ends stand_in ℕ_discrete test_config (new 1 2) 5 7 reset_connection []
tcp_round-stops_iff_example =
    tcp_round-stops_iff stand_in ℕ_discrete test_config (new 1 2) 5 7 reset_connection []
      (omega arith)
