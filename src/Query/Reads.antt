-- ===== src/Query/Reads.antt =====
-- What a client reads in the answer to its question.
use rustyalias.Common.{◌<◌, arith, length, All, ℕ, ◌-◌, ◌≡◌, ◌≢◌, [], some, Bytes, true, ret}
use rustyalias.Text.{trim_dots}
use rustyalias.Response.Packet.{answers, authority, additional, push_all}
use rustyalias.Response.Read.{Fits}
use rustyalias.Response.Read.Room.{group_rrs-fit}
use rustyalias.Wire.{question_section_end, encode_domain_name, rcode_noerror}
use rustyalias.Wire.Question.{question_at}
use rustyalias.Edns.{query_dnssec_ok}
use rustyalias.Dnssec.Key.{Platform, IsPlatform}
use rustyalias.Response.{ZoneParams}
use rustyalias.Response.Start.{opening, asked}
use rustyalias.Response.Contents.{Sections, lookup, message_of, response}
use rustyalias.Response.Read.Whole.{read_message}
use rustyalias.Response.Read.Emitted.{Emitted, AllFit}
use rustyalias.Response.Read.Finish.{emitted, reading_of, laid_out-read}
use rustyalias.Config.{Config}
use rustyalias.Query.{zone_params, handle_query_internal}
use rustyalias.Query.Authority.{Asks}
use rustyalias.Query.Node.{node}
use rustyalias.Query.Refines.{handle_query_internal-lookup}
use rustyalias.Query.Zone.Suffix.{InZone}

-- The records of some sections in their sets, with the signatures.
abbrev pub emitted_of : (P : Platform) → ZoneParams P → Bytes → ℕ → Sections → Emitted
emitted_of P params query end s =
    emitted P query params end (message_of P params query end s)
      (opening query true rcode_noerror (asked query end))

-- The records of the sections fit their bytes, and are few enough to be counted with signatures.
pub record SectionsFit (s : Sections) : Type 0 where
  pub answers_fit : All Fits s.answers
  pub authority_fit : All Fits s.authority
  pub additional_fit : All Fits s.additional
  pub few_answers : length s.answers < 32000
  pub few_authority : length s.authority < 32000
  pub few_additional : length s.additional < 32000

emitted_of-AllFit :
    (P : Platform)
    → IsPlatform P
    → (params : ZoneParams P) → length (encode_domain_name params.zone) < 65000
    → (query : Bytes) (end : ℕ) (s : Sections) → SectionsFit s
    → AllFit (emitted_of P params query end s)
emitted_of-AllFit P documented params short query end s fit =
    let p = opening query true rcode_noerror (asked query end) in
    let x = emitted_of P params query end s in
    let p1 = push_all answers p x.answers in
    let p2 = push_all authority p1 x.authority in
    let (f1, n1) =
      group_rrs-fit P documented query end params short answers s.answers p fit.answers_fit in
    let (f2, n2) =
      group_rrs-fit P documented query end params short authority s.authority p1
        fit.authority_fit in
    let (f3, n3) =
      group_rrs-fit P documented query end params short additional s.additional p2
        fit.additional_fit in
    record {
      answers_fit = f1;
      authority_fit = f2;
      additional_fit = f3;
      few_answers = omega (arith, n1, fit.few_answers);
      few_authority = omega (arith, n2, fit.few_authority);
      few_additional = omega (arith, n3, fit.few_additional);
    }

pub response-read :
    (P : Platform)
    → IsPlatform P
    → (query : Bytes) {end : ℕ} → question_section_end query ≡ some end
    → (params : ZoneParams P) → length (encode_domain_name params.zone) < 65000
    → (s : Sections) → SectionsFit s
    → read_message (end - 12) (response P params query end s)
      ≡ some (reading_of P query params (emitted_of P params query end s))
unfolding response
response-read P documented query {end} e params short s fit =
    laid_out-read P query params e (message_of P params query end s)
      (emitted_of-AllFit P documented params short query end s fit)

-- The lookup for a question.
abbrev pub looked_up : (P : Platform) → Config P → Bytes → Bytes → ℕ → Sections
looked_up P config query domain end =
    let params = zone_params P config (query_dnssec_ok query) in
    lookup P params query end (node P config params domain) (question_at query end).0

module _ (P : Platform) (documented : IsPlatform P) (query : Bytes) (config : Config P)
    (domain : Bytes) {end : ℕ} (q : Asks query domain end) where
  abbrev params : ZoneParams P
  params = zone_params P config (query_dnssec_ok query)

  pub same_zone :
      length (encode_domain_name config.glue_name) < 65000
      → length (encode_domain_name params.zone) < 65000
  unfolding zone_params
  same_zone h = h

  -- For a standard query of class IN for a name in the zone, where the zone has a name server and
  -- not too long a name, the records of the lookup fit their bytes and there are fewer than 32000 in
  -- a section, and keys, signatures and hashes have their documented sizes: a client that reads the
  -- answer, a header with its counts and behind the question as many records, each an owner, a type,
  -- a class, a TTL and an RDATA, finds the records of the lookup in their sections, in their sets and
  -- with their signatures, then the OPT record if the query had one, and no byte behind them.
  pub handle_query_internal-read :
      InZone (trim_dots domain) (trim_dots config.glue_name)
      → config.ns_names ≢ []
      → length (encode_domain_name config.glue_name) < 65000
      → SectionsFit (looked_up P config query domain end)
      → (out : Bytes) × (handle_query_internal P query config ≡ ret out)
        × (read_message (end - 12) out
            ≡ some (
                reading_of P query (zone_params P config (query_dnssec_ok query)) (
                  emitted_of P
                    (zone_params P config (query_dnssec_ok query))
                    query
                    end
                    (looked_up P config query domain end))))
  handle_query_internal-read w served short fit =
      let s = looked_up P config query domain end in
      (
        response P params query end s,
        handle_query_internal-lookup P query config domain q w served,
        response-read P documented query q.ends params (same_zone short) s fit,
      )
