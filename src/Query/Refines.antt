-- ===== src/Query/Refines.antt =====
-- `handle_query_internal` answers as a lookup in the zone.
use rustyalias.Common.{
  ℕ, ◌≡◌, ◌≢◌, refl, Bool, true, false, not, ◌&&◌, ◌||◌, [], ◌∷◌, Option, none, some, Bytes, ◌==◌,
  if◌then◌else◌, is_empty, Outcome, ret,
}
use rustyalias.Text.{trim_dots}
use rustyalias.IpParser.{Addresses, interpret_ip}
use rustyalias.Wire.{names_eq, type_txt, type_any}
use rustyalias.Wire.Question.{question_at}
use rustyalias.Edns.{query_dnssec_ok}
use rustyalias.Dnssec.Key.{Platform}
use rustyalias.Response.{ZoneParams}
use rustyalias.Response.Contents.{Node, lookup, response}
use rustyalias.Response.Contents.Hosts.{
  Looks, host, text, build_address_response-Looks, build_txt_response-Looks, build_nodata-text,
  build_nodata-nameless,
}
use rustyalias.Response.Contents.Every.{build_apex_response-Looks}
use rustyalias.Response.Build.{build_txt_response, build_nodata_response}
use rustyalias.Config.{Config}
use rustyalias.Query.{
  is_version_query, dmarc_owner, is_configured_ns, zone_params, answer_version, answer_dmarc,
  answer_address, answer_found, answer, answer_question, handle_query_internal,
}
use rustyalias.Query.Authority.{Asks, handle_query_internal-question}
use rustyalias.Query.Node.{node, addresses}
use rustyalias.Query.Zone.{is_in_zone_lem}
use rustyalias.Query.Zone.Suffix.{InZone, in_zone_complete}

module _ (P : Platform) (query : Bytes) (config : Config P) (domain : Bytes) {end : ℕ}
    (q : Asks query domain end) where
  abbrev params : ZoneParams P
  params = zone_params P config (query_dnssec_ok query)

  abbrev Served : Node → ℕ → Outcome Bytes → Type 0
  Served at qtype o = Looks P params query q.ends at qtype o

  found_branch :
      (qtype : ℕ) (ip : Option Addresses)
      → Served (host (addresses ip)) qtype (answer_found P query qtype params ip)
  found_branch qtype none = build_nodata-nameless P params query q.ends qtype
  found_branch qtype (some (v4, v6)) =
      build_address_response-Looks P params query q.ends qtype v4 v6

  text_branch :
      (qtype : ℕ) (txt : Bytes) (h : Bool)
      → qtype == type_txt || qtype == type_any ≡ h
      → Served (text txt) qtype (
          if h
          then build_txt_response P query txt params
          else build_nodata_response P query params (type_txt ∷ []))
  text_branch qtype txt true h = build_txt_response-Looks P params query q.ends qtype txt h
  text_branch qtype txt false h = build_nodata-text P params query q.ends qtype txt h

  branch :
      (b : Bool) (at1 at2 : Node) (qtype : ℕ) (o1 o2 : Outcome Bytes)
      → Served at1 qtype o1
      → Served at2 qtype o2
      → Served (if b then at1 else at2) qtype (if b then o1 else o2)
  branch true at1 at2 qtype o1 o2 h1 h2 = h1
  branch false at1 at2 qtype o1 o2 h1 h2 = h2

  some_server : config.ns_names ≢ [] → params.ns_names ≢ []
  unfolding zone_params
  some_server served = served

  and_true : (b : Bool) → b && true ≡ b
  and_true true = refl
  and_true false = refl

  answer-node :
      (qtype : ℕ)
      → config.ns_names ≢ []
      → Served (node P config params domain) qtype (answer P query domain qtype true config params)
  unfolding answer answer_version answer_dmarc answer_address node
  answer-node qtype served =
      branch (is_version_query domain) _ _ qtype _ _ (text_branch qtype _ _ refl) (
        branch (not (is_empty config.dmarc) && names_eq domain (dmarc_owner config.glue_name)) _ _
          qtype _ _ (text_branch qtype config.dmarc _ refl)
          (branch (names_eq domain config.glue_name) _ _ qtype _ _
            (build_apex_response-Looks P params query q.ends qtype (some_server served))
            (rw (and_true (is_configured_ns P domain config)) (
              branch (is_configured_ns P domain config) _ _ qtype _ _
                (build_address_response-Looks P params query q.ends qtype (some config.glue_ip)
                  config.glue_ip6)
                (found_branch qtype (interpret_ip domain))))))

  -- A standard query of class IN for a name in the zone, where the zone has a name server, gets the
  -- response of a lookup: the records of the name that match the type of the question, or the denial
  -- of it where there are none, and beside the answers the name servers and their addresses where
  -- the code adds them.
  pub handle_query_internal-lookup :
      InZone (trim_dots domain) (trim_dots config.glue_name)
      → config.ns_names ≢ []
      → handle_query_internal P query config
        ≡ ret (
            response P (zone_params P config (query_dnssec_ok query)) query end (
              lookup P
                (zone_params P config (query_dnssec_ok query))
                query
                end
                (node P config (zone_params P config (query_dnssec_ok query)) domain)
                (question_at query end).0))
  unfolding answer_question
  handle_query_internal-lookup w served =
      rw
        (
          handle_query_internal-question P query config domain q,
          is_in_zone_lem domain config.glue_name,
          in_zone_complete _ _ w,
        )
        (answer-node (question_at query end).0 served)
