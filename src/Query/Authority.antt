-- ===== src/Query/Authority.antt =====
-- Which questions are answered with authority, and which are refused.
use rustyalias.Common.{ℕ, ◌≡◌, arith, false, inl, inr, some, Bytes, Bool-cases, ret}
use rustyalias.Text.{trim_dots}
use rustyalias.Wire.{question_section_end, rcode_refused}
use rustyalias.Wire.Question.{question_at, question_section_end_bounds, parse_qtype_qclass_lem}
use rustyalias.Dnssec.Key.{Platform}
use rustyalias.Response.Build.{build_refused_response}
use rustyalias.Response.Start.{error_response-wire}
use rustyalias.Config.{Config}
use rustyalias.Query.{is_version_query, answer_question, opcode, handle_query_internal, parse_query}
use rustyalias.Query.Handles.{error_bytes}
use rustyalias.Query.Zone.{in_zone, is_in_zone_lem}
use rustyalias.Query.Zone.Suffix.{InZone, in_zone_sound}

-- A standard query of class IN whose question can be read, for the name `domain`.
pub record Asks (query domain : Bytes) (end : ℕ) : Type 0 where
  pub standard : opcode query ≡ 0
  pub ends : question_section_end query ≡ some end
  pub named : parse_query query ≡ ret (some domain)
  pub internet : (question_at query end).1 ≡ 1

module _ (P : Platform) (query : Bytes) (config : Config P) (domain : Bytes) {end : ℕ}
    (q : Asks query domain end) where
  pub handle_query_internal-question :
      handle_query_internal P query config
      ≡ answer_question P query domain (question_at query end).0 1 config
  unfolding handle_query_internal
  handle_query_internal-question =
      rw (q.standard, q.named, parse_qtype_qclass_lem query, q.ends, q.internet)

  pub outside :
      ¬ InZone (trim_dots domain) (trim_dots config.glue_name)
      → in_zone (trim_dots domain) (trim_dots config.glue_name) ≡ false
  outside n = elim (Bool-cases (in_zone (trim_dots domain) (trim_dots config.glue_name))) [
    | inl y ↦ absurd (n (in_zone_sound _ _ y))
    | inr e ↦ e
  ]

  -- A standard query of class IN for a name that is not in the zone and is not one of `version`,
  -- `ver` and `v` is refused, with no record.
  pub handle_query_internal-refused :
      ¬ InZone (trim_dots domain) (trim_dots config.glue_name)
      → is_version_query domain ≡ false
      → handle_query_internal P query config ≡ ret (error_bytes query rcode_refused)
  unfolding answer_question build_refused_response
  handle_query_internal-refused n v =
      let (lo, hi) = question_section_end_bounds query q.ends in
      rw (handle_query_internal-question, is_in_zone_lem domain config.glue_name, outside n, v)
        (error_response-wire query rcode_refused (omega arith))
