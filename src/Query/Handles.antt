-- ===== src/Query/Handles.antt =====
-- `handle_query_internal` on any bytes: it returns, and what it returns is a well-formed response
-- or nothing.
use rustyalias.Common.{
  ℕ, ◌≤◌, ◌≡◌, refl, Bool, true, false, not, ◌&&◌, ◌||◌, ◌⊎◌, inl, inr, [], Option, none, some,
  Bytes, length, ltb, ◌==◌, is_empty, map_option, if-either, Bool-cases, Outcome, ret, ◌>>=◌,
  ltb_ge,
}
use rustyalias.IpParser.{Addresses, interpret_ip}
use rustyalias.Wire.{
  question_section_end, rcode_noerror, rcode_notimp, rcode_refused, type_txt, type_any, names_eq,
}
use rustyalias.Wire.Question.{question_at, parse_qtype_qclass_lem}
use rustyalias.Edns.{query_dnssec_ok}
use rustyalias.Dnssec.Key.{Platform}
use rustyalias.Response.{ZoneParams, sign}
use rustyalias.Response.Build.{error_response, build_refused_response, build_notimp_response}
use rustyalias.Response.Packet.{wire}
use rustyalias.Response.Layout.{with_opt}
use rustyalias.Response.Start.{opening, asked, asked_or_empty, error_response-wire}
use rustyalias.Response.Reply.{IsReply}
use rustyalias.Response.Replies.{
  Replies, nodata-Replies, build_txt_response-Replies, build_address_response-Replies,
}
use rustyalias.Response.Apex.{build_apex_response-Replies}
use rustyalias.Config.{Config}
use rustyalias.Query.{
  is_version_query, dmarc_owner, is_configured_ns, zone_params, answer_version, answer_dmarc,
  answer_address, answer, answer_question, opcode, handle_query_internal, parse_query,
  answer_parsed, answer_found, handle_parsed,
}
use rustyalias.Query.Labels.{parse_query-Returns}
use rustyalias.Query.Zone.{is_in_zone_lem}

-- An error response: header, the question if there is one, and the OPT record if there was one.
abbrev pub error_bytes : Bytes → ℕ → Bytes
error_bytes query rcode = wire (
    with_opt query false
      (opening query false rcode (asked_or_empty query (question_section_end query))))

-- What may become of a query: no response; an error without records; or an authoritative response
-- whose header counts its records.
pub data Handled (P : Platform) (query : Bytes) (config : Config P) (r : Bytes) : Type 0 where
  dropped : r ≡ [] → Handled P query config r
  errored :
      (rcode : ℕ)
      → (rcode ≡ rcode_notimp) ⊎ (rcode ≡ rcode_refused)
      → 12 ≤ length query
      → r ≡ error_bytes query rcode
      → Handled P query config r
  replied :
      {end : ℕ}
      → question_section_end query ≡ some end
      → IsReply query
          (sign P (zone_params P config (query_dnssec_ok query)))
          (opening query true rcode_noerror (asked query end))
          r
      → Handled P query config r

module _ (P : Platform) (query : Bytes) (config : Config P) where
  abbrev pub Handles : Outcome Bytes → Type 0
  Handles o = (r : Bytes) × (o ≡ ret r) × Handled P query config r

  error_response-Handles :
      (rcode : ℕ)
      → (rcode ≡ rcode_notimp) ⊎ (rcode ≡ rcode_refused)
      → Handles (error_response query rcode)
  error_response-Handles rcode known = elim (Bool-cases (ltb (length query) 12)) [
    | inl short ↦ ([], unfold error_response in rw short, dropped refl)
    | inr long ↦
        let h = ltb_ge (length query) 12 long in
        (_, error_response-wire query rcode h, errored rcode known h refl)
  ]

  refused : Handles (build_refused_response query)
  unfolding build_refused_response
  refused = error_response-Handles rcode_refused (inr refl)

  nothing : Handles (ret [])
  nothing = ([], refl, dropped refl)

  -- From a question that ends at `end` on, with the settings of the zone.
  module _ {end : ℕ} (e : question_section_end query ≡ some end) where
    of_reply :
        {o : Outcome Bytes}
        → Replies P query end (zone_params P config (query_dnssec_ok query)) o
        → Handles o
    of_reply (r, f, w) = (r, f, replied e w)

    abbrev params : ZoneParams P
    params = zone_params P config (query_dnssec_ok query)

    version_branch :
        (qtype : ℕ) (in_zone : Bool) → Handles (answer_version P query qtype in_zone config params)
    unfolding answer_version
    version_branch qtype in_zone =
        if-either Handles (qtype == type_txt || qtype == type_any) _ _
          (of_reply (build_txt_response-Replies P query e params _))
          (if-either Handles in_zone _ _ (of_reply (nodata-Replies P query e params _)) refused)

    dmarc_branch : (qtype : ℕ) → Handles (answer_dmarc P query qtype config params)
    unfolding answer_dmarc
    dmarc_branch qtype =
        if-either Handles (qtype == type_txt || qtype == type_any) _ _
          (of_reply (build_txt_response-Replies P query e params _))
          (of_reply (nodata-Replies P query e params _))

    found_branch :
        (qtype : ℕ) (ip : Option Addresses) → Handles (answer_found P query qtype params ip)
    found_branch qtype none = of_reply (nodata-Replies P query e params _)
    found_branch qtype (some ip) =
        of_reply (build_address_response-Replies P query e params qtype ip)

    answer-Handles :
        (domain : Bytes) (qtype : ℕ) (in_zone : Bool)
        → Handles (answer P query domain qtype in_zone config params)
    unfolding answer answer_address
    answer-Handles domain qtype in_zone =
        if-either Handles (is_version_query domain) _ _ (version_branch qtype in_zone) (
          if-either Handles
            (not (is_empty config.dmarc) && names_eq domain (dmarc_owner config.glue_name)) _ _
            (dmarc_branch qtype)
            (if-either Handles (names_eq domain config.glue_name) _ _
              (of_reply (build_apex_response-Replies P query e params qtype))
              (if-either Handles (is_configured_ns P domain config && in_zone) _ _
                (of_reply (build_address_response-Replies P query e params qtype _))
                (found_branch qtype (interpret_ip domain)))))

    answer_question-Handles :
        (domain : Bytes) (qtype qclass : ℕ)
        → Handles (answer_question P query domain qtype qclass config)
    unfolding answer_question
    answer_question-Handles domain qtype qclass =
        if-either Handles (not (qclass == 1)) _ _ refused (
          rw (is_in_zone_lem domain config.glue_name)
            (if-either Handles _ _ _ refused (answer-Handles domain qtype _)))

  answer_parsed-Handles :
      (domain : Bytes) (end : Option ℕ)
      → question_section_end query ≡ end
      → Handles (answer_parsed P query domain (map_option (question_at query) end) config)
  answer_parsed-Handles domain none e = nothing
  answer_parsed-Handles domain (some end) e = answer_question-Handles e domain _ _

  handle_parsed-Handles : (domain : Option Bytes) → Handles (handle_parsed P query config domain)
  handle_parsed-Handles none = nothing
  handle_parsed-Handles (some domain) =
      rw (parse_qtype_qclass_lem query)
        (answer_parsed-Handles domain (question_section_end query) refl)

  -- For every query and every configuration the handler returns: no index is out of range, no
  -- `expect` fails and no loop runs on. The response is empty; or NOTIMP or REFUSED with no record;
  -- or authoritative, with the query's question, and then its counts are those of the records in it.
  pub handle_query_internal-Handled :
      (r : Bytes) × (handle_query_internal P query config ≡ ret r) × Handled P query config r
  unfolding handle_query_internal build_notimp_response
  handle_query_internal-Handled =
      if-either Handles (not (opcode query == 0)) _ _
        (error_response-Handles rcode_notimp (inl refl)) parsed
    where
      parsed : Handles (do domain ← parse_query query; handle_parsed P query config domain)
      parsed = let (domain, f) = parse_query-Returns query in rw f (handle_parsed-Handles domain)
