-- ===== src/Query/Address.antt =====
-- A question of type A for a name that holds an address, from the query to the bytes of the answer.
use rustyalias.Common.{
  ℕ, ◌≡◌, refl, ◌∙◌, Bool, true, false, not, ◌&&◌, Option, some, Bytes, is_empty, ret,
}
use rustyalias.Text.{trim_dots}
use rustyalias.Net.{Ipv4Addr, Ipv6Addr}
use rustyalias.IpParser.{interpret_ip}
use rustyalias.Wire.{rcode_noerror, type_a, names_eq}
use rustyalias.Wire.Question.{question_at}
use rustyalias.Edns.{query_dnssec_ok}
use rustyalias.Dnssec.Key.{Platform}
use rustyalias.Response.{ZoneParams, sign}
use rustyalias.Response.Build.{build_address_response}
use rustyalias.Response.Packet.{wire, answers, push}
use rustyalias.Response.Layout.{with_opt}
use rustyalias.Response.Start.{opening, asked}
use rustyalias.Response.Address.{address_record, build_address_response-one}
use rustyalias.Config.{Config}
use rustyalias.Query.{
  is_version_query, dmarc_owner, is_configured_ns, zone_params, answer, answer_address,
  answer_question, handle_query_internal,
}
use rustyalias.Query.Zone.{is_in_zone_lem}
use rustyalias.Query.Zone.Suffix.{InZone, in_zone_complete}
use rustyalias.Query.Authority.{Asks, handle_query_internal-question}

-- The name has no meaning of its own: it is no version name, the DMARC name, the zone or one of its
-- name servers.
pub record IsPlain (P : Platform) (config : Config P) (domain : Bytes) : Type 0 where
  pub no_version : is_version_query domain ≡ false
  pub no_dmarc : names_eq domain (dmarc_owner config.glue_name) ≡ false
  pub no_apex : names_eq domain config.glue_name ≡ false
  pub no_ns : is_configured_ns P domain config ≡ false

dmarc_test : (b : Bool) → (b && false) ≡ false
dmarc_test true = refl
dmarc_test false = refl

module _ (P : Platform) (query : Bytes) (config : Config P) (domain : Bytes) {end : ℕ}
    (q : Asks query domain end) (plain : IsPlain P config domain) where
  answer-address :
      (qtype : ℕ) (params : ZoneParams P) (ip : Option Ipv4Addr) (v6 : Option Ipv6Addr)
      → interpret_ip domain ≡ some (ip, v6)
      → answer P query domain qtype true config params
        ≡ build_address_response P query qtype (ip, v6) params
  unfolding answer answer_address
  answer-address qtype params ip v6 found = rw (
    plain.no_version,
    plain.no_dmarc,
    dmarc_test (not (is_empty config.dmarc)),
    plain.no_apex,
    plain.no_ns,
    found,
  )

  -- A standard query of class IN and type A, for a name in the zone that has no meaning of its own
  -- and stands for an IPv4 address, gets, where the answer is not signed, just the A record of that
  -- address, counted as the one answer, and the OPT record if the query had one.
  pub handle_query_internal-address :
      (ip : Ipv4Addr) (v6 : Option Ipv6Addr)
      → InZone (trim_dots domain) (trim_dots config.glue_name)
      → (question_at query end).0 ≡ type_a
      → sign P (zone_params P config (query_dnssec_ok query)) ≡ false
      → interpret_ip domain ≡ some (some ip, v6)
      → handle_query_internal P query config
        ≡ ret (
            wire (
              with_opt query false (
                push answers
                  (opening query true rcode_noerror (asked query end))
                  (address_record ip))))
  unfolding answer_question
  handle_query_internal-address ip v6 inside type_is_a unsigned found =
      let params = zone_params P config (query_dnssec_ok query) in
      handle_query_internal-question P query config domain q
      ∙ rw (is_in_zone_lem domain config.glue_name, in_zone_complete _ _ inside, type_is_a)
          (answer-address type_a params (some ip) v6 found
            ∙ build_address_response-one P query q.ends params unsigned ip v6)
