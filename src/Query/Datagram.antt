-- ===== src/Query/Datagram.antt =====
-- What a client reads in the datagram that it gets.
use rustyalias.Common.{
  ℕ, ◌-◌, ◌≤◌, ◌<◌, ◌≡◌, ◌≢◌, ◌⊎◌, inl, inr, [], refl, some, Bytes, length, get_or, bit_or, leb,
  leb→le, leb_gt, Bool-cases, is_empty, false, ret,
}
use rustyalias.Text.{trim_dots}
use rustyalias.Wire.{encode_domain_name}
use rustyalias.Edns.{query_dnssec_ok, udp_response_limit, maybe_truncate_udp}
use rustyalias.Dnssec.Key.{Platform, IsPlatform}
use rustyalias.Response.{ZoneParams}
use rustyalias.Response.Contents.{Sections, response}
use rustyalias.Response.Read.Whole.{read_message}
use rustyalias.Response.Read.Emitted.{opt_of}
use rustyalias.Response.Read.Finish.{reading_of}
use rustyalias.Response.Read.Truncated.{without_records, read-truncated, flags-truncated}
use rustyalias.Response.Truncate.{maybe_truncate_udp_fits, maybe_truncate_udp-cut}
use rustyalias.Config.{Config}
use rustyalias.Query.{zone_params, send_response, handle_query}
use rustyalias.Query.Authority.{Asks}
use rustyalias.Query.Reads.{SectionsFit, emitted_of, looked_up, response-read, same_zone}
use rustyalias.Query.Refines.{handle_query_internal-lookup}
use rustyalias.Query.Zone.Suffix.{InZone}

-- Of an answer, a client gets all of it, where that is not over the limit; or else a message with TC
-- set, and no record but an OPT record.
abbrev pub Arrives : Bytes → ℕ → Bytes → Bytes → Type 0
Arrives query end answer sent =
    ((length answer ≤ udp_response_limit query) × (sent ≡ answer))
    ⊎ ((udp_response_limit query < length answer)
        × (get_or sent 2 0 ≡ bit_or (get_or answer 2 0) 2)
        × ((read_message (end - 12) sent ≡ some (without_records []))
            ⊎ (read_message (end - 12) sent ≡ some (without_records (opt_of query false)))))

module _ (P : Platform) (documented : IsPlatform P) (query : Bytes) (config : Config P)
    (domain : Bytes) {end : ℕ} (q : Asks query domain end) where
  cut_or_whole :
      (answer : Bytes)
      → (sent : Bytes) × (maybe_truncate_udp answer query ≡ ret sent)
        × Arrives query end answer sent
  cut_or_whole answer = elim (Bool-cases (leb (length answer) (udp_response_limit query))) [
    | inl fits ↦
        let h = leb→le (length answer) (udp_response_limit query) fits in
        (answer, maybe_truncate_udp_fits answer query h, inl (h, refl))
    | inr over ↦
        let h = leb_gt (length answer) (udp_response_limit query) over in
        (
          _,
          maybe_truncate_udp-cut answer query q.ends h,
          inr (h, flags-truncated answer query q.ends, read-truncated answer query q.ends),
        )
  ]

  send_response-cut :
      (answer sent : Bytes)
      → is_empty answer ≡ false
      → maybe_truncate_udp answer query ≡ ret sent
      → send_response query answer ≡ ret (some sent)
  unfolding send_response
  send_response-cut answer sent some_bytes same = rw (some_bytes, same) refl

  nonempty :
      (params : ZoneParams P) (s : Sections) → is_empty (response P params query end s) ≡ false
  unfolding response
  nonempty params s = refl

  -- For a standard query of class IN for a name in the zone, where the zone has a name server and
  -- not too long a name, the records of the lookup fit their bytes and there are fewer than 32000 in
  -- a section, and keys, signatures and hashes have their documented sizes: there is an answer in
  -- which a client reads the records of the lookup, in their sets and with their signatures, and then
  -- the OPT record if the query had one, and `handle_query` sends a datagram. The datagram is that
  -- answer, where it is not longer than the limit for the query; or else its third byte is that of
  -- the answer with TC set, and a client reads in it no record, or just the
  -- OPT record if the query had one.
  pub handle_query-read :
      InZone (trim_dots domain) (trim_dots config.glue_name)
      → config.ns_names ≢ []
      → length (encode_domain_name config.glue_name) < 65000
      → SectionsFit (looked_up P config query domain end)
      → (answer : Bytes) × (sent : Bytes) × (handle_query P query config ≡ ret (some sent))
        × (read_message (end - 12) answer
            ≡ some (
                reading_of P query (zone_params P config (query_dnssec_ok query)) (
                  emitted_of P
                    (zone_params P config (query_dnssec_ok query))
                    query
                    end
                    (looked_up P config query domain end))))
        × Arrives query end answer sent
  unfolding handle_query
  handle_query-read w served short fit =
      let params = zone_params P config (query_dnssec_ok query) in
      let s = looked_up P config query domain end in
      let (sent, cut, arrives) = cut_or_whole (response P params query end s) in
      (
        response P params query end s,
        sent,
        rw (handle_query_internal-lookup P query config domain q w served)
            (send_response-cut (response P params query end s) sent (nonempty params s) cut),
        response-read P documented query q.ends params
            (same_zone P documented query config domain q short) s fit,
        arrives,
      )
