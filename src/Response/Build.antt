-- ===== src/Response/Build.antt =====
-- src/dns/response.rs: the builders of responses.
use rustyalias.Common.{
  ℕ, ◌-◌, true, false, ◌&&◌, ◌||◌, List, [], ◌∷◌, ◌++◌, Option, none, some, Bytes, ltb, ◌==◌,
  if◌then◌else◌, is_some, is_none, keep_if, length, Outcome, ret, ◌>>=◌, slice,
}
use rustyalias.Net.{Ipv4Addr, Ipv6Addr}
use rustyalias.IpParser.{Addresses}
use rustyalias.Wire.{
  type_a, type_ns, type_soa, type_txt, type_aaaa, type_nsec, type_dnskey, type_cds, type_cdnskey,
  type_any, rcode_noerror, rcode_notimp, rcode_refused, offset_ancount, offset_nscount,
  question_section_end, response_flags,
}
use rustyalias.Edns.{maybe_append_opt}
use rustyalias.Dnssec.Bitmap.{nsec_types, nsec_rdata}
use rustyalias.Dnssec.Key.{Platform}
use rustyalias.Response.{
  ZoneParams, question, name, Msg, with_question, add_rr, add_a, add_aaaa, add_txt, sign,
  apex_types, add_soa, add_ns_set, add_dnskey, add_cds, add_cdnskey, add_in_bailiwick_glue,
}
use rustyalias.Response.Emit.{finish}

-- The question of an error response, where the query has one.
unfoldable pub question_or_empty : Bytes → Outcome Bytes
question_or_empty query = elim (question_section_end query) [
  | none ↦ ret []
  | some end ↦ slice query 12 end
]

unfoldable pub error_response : Bytes → ℕ → Outcome Bytes
error_response query rcode = if ltb (length query) 12 then ret [] else (do
  id ← slice query 0 2
  qdcount ← slice query 4 6
  asked ← question_or_empty query
  let counts : Bytes = 0 ∷ 0 ∷ 0 ∷ 0 ∷ 0 ∷ 0 ∷ [] in
      maybe_append_opt (id ++ (response_flags query false rcode ++ (qdcount ++ (counts ++ asked))))
        query false)

unfoldable pub build_refused_response : Bytes → Outcome Bytes
build_refused_response query = error_response query rcode_refused

unfoldable pub build_notimp_response : Bytes → Outcome Bytes
build_notimp_response query = error_response query rcode_notimp

unfoldable pub address_types : Addresses → List ℕ
address_types (v4, v6) =
    (if is_some v4 then type_a ∷ [] else []) ++ (if is_some v6 then type_aaaa ∷ [] else [])

-- A message is given to `f`; without a question the response is empty.
abbrev pub with_msg : Bytes → (Msg → Outcome Bytes) → Outcome Bytes
with_msg query f = do
  msg ← with_question query true rcode_noerror
  elim msg [ none ↦ ret [] | some m ↦ f m ]

-- What one arm of the `match` of `build_apex_response` does: it adds records to the message, or
-- answers with no data, or ends with an empty response.
pub data ApexAnswer : Type 0 where
  records : Msg → ApexAnswer
  no_data : ApexAnswer
  empty : ApexAnswer

abbrev pub add_answer_a : Msg → Option Ipv4Addr → Msg
add_answer_a m none = m
add_answer_a m (some ip) = add_a m offset_ancount question ip

abbrev pub add_answer_aaaa : Msg → Option Ipv6Addr → Msg
add_answer_aaaa m none = m
add_answer_aaaa m (some ip) = add_aaaa m offset_ancount question ip

abbrev pub add_answer_txt : Msg → Option Bytes → Msg
add_answer_txt m none = m
add_answer_txt m (some txt) = add_txt m txt

abbrev pub aaaa_arm : Msg → Option Ipv6Addr → Outcome ApexAnswer
aaaa_arm m none = ret no_data
aaaa_arm m (some ip6) = ret (records (add_aaaa m offset_ancount question ip6))

abbrev pub txt_arm : Msg → Option Bytes → Outcome ApexAnswer
txt_arm m none = ret no_data
txt_arm m (some spf) = ret (records (add_txt m spf))

module _ (P : Platform) where
  -- The NSEC record of a negative response, or the apex's own.
  unfoldable pub add_nsec : Msg → ℕ → Bytes → ℕ → List ℕ → ZoneParams P → Outcome Msg
  add_nsec msg count_offset query end existing_types params = do
    qname ← slice query 12 (end - 4)
    rdata ← nsec_rdata qname (nsec_types existing_types)
    ret (add_rr msg count_offset question type_nsec params.minimum rdata)

  -- The end of a signed response with no data: the NSEC record goes in.
  abbrev pub nodata_signed : Bytes → ZoneParams P → List ℕ → Msg → Option ℕ → Outcome Bytes
  nodata_signed query params existing_types msg none = finish P msg query params
  nodata_signed query params existing_types msg (some end) = do
    msg ← add_nsec msg offset_nscount query end existing_types params
    finish P msg query params

  unfoldable pub nodata_message : Bytes → ZoneParams P → List ℕ → Msg → Outcome Bytes
  unfolding add_nsec
  nodata_message query params existing_types m =
      let msg = add_soa P m offset_nscount (name params.zone) params in
      if sign P params
      then nodata_signed query params existing_types msg (question_section_end query)
      else finish P msg query params

  unfoldable pub nodata : Bytes → ZoneParams P → List ℕ → Outcome Bytes
  unfolding nodata_message
  nodata query params existing_types = with_msg query (nodata_message query params existing_types)

  abbrev pub build_nodata_response : Bytes → ZoneParams P → List ℕ → Outcome Bytes
  build_nodata_response query params existing_types = nodata query params existing_types

  unfoldable pub build_txt_response : Bytes → Bytes → ZoneParams P → Outcome Bytes
  build_txt_response query txt_data params =
      with_msg query (λ m. finish P (add_txt m txt_data) query params)

  abbrev pub any_answer : Msg → ZoneParams P → Outcome ApexAnswer
  any_answer m params = do
    let m = add_soa P m offset_ancount question params
    let m = add_ns_set P m offset_ancount params
    let m = add_a m offset_ancount question params.glue_ip
    let m = add_answer_aaaa m params.glue_ip6
    let m = add_answer_txt m params.spf
    let m : Msg =
        if is_some params.dnssec
        then add_cdnskey P (add_cds P (add_dnskey P m params) params) params
        else m
    m ← add_in_bailiwick_glue P m params
    ret (records m)

  abbrev pub apex_nsec : Msg → Bytes → ZoneParams P → Option ℕ → Outcome ApexAnswer
  apex_nsec m query params none = ret empty
  apex_nsec m query params (some end) = do
    m ← add_nsec m offset_ancount query end (apex_types P params) params
    ret (records m)

  -- The arms that need a key.
  abbrev pub when_signed : ZoneParams P → Outcome ApexAnswer → Outcome ApexAnswer
  when_signed params answer = if is_none params.dnssec then ret no_data else answer

  unfoldable pub apex_answer : Msg → Bytes → ℕ → ZoneParams P → Outcome ApexAnswer
  unfolding add_nsec
  apex_answer m query qtype params =
      if qtype == type_soa
      then (do
        let m = add_soa P m offset_ancount question params
        let m = add_ns_set P m offset_nscount params
        m ← add_in_bailiwick_glue P m params
        ret (records m))
      else if qtype == type_ns
      then (do
        m ← add_in_bailiwick_glue P (add_ns_set P m offset_ancount params) params
        ret (records m))
      else if qtype == type_a
      then ret (records (add_a m offset_ancount question params.glue_ip))
      else if qtype == type_aaaa
      then aaaa_arm m params.glue_ip6
      else if qtype == type_txt
      then txt_arm m params.spf
      else if qtype == type_dnskey
      then when_signed params (ret (records (add_dnskey P m params)))
      else if qtype == type_cds
      then when_signed params (ret (records (add_cds P m params)))
      else if qtype == type_cdnskey
      then when_signed params (ret (records (add_cdnskey P m params)))
      else if qtype == type_nsec
      then when_signed params (apex_nsec m query params (question_section_end query))
      else if qtype == type_any
      then any_answer m params
      else ret no_data

  abbrev pub finish_apex : Bytes → ZoneParams P → ApexAnswer → Outcome Bytes
  finish_apex query params (records m) = finish P m query params
  finish_apex query params no_data = nodata query params (apex_types P params)
  finish_apex query params empty = ret []

  unfoldable pub build_apex_response : Bytes → ℕ → ZoneParams P → Outcome Bytes
  unfolding apex_answer
  build_apex_response query qtype params =
      with_msg query
        (λ m. do answer ← apex_answer m query qtype params; finish_apex query params answer)

  unfoldable pub build_address_response : Bytes → ℕ → Addresses → ZoneParams P → Outcome Bytes
  build_address_response query qtype ip params =
      let want_a = qtype == type_a || qtype == type_any in
      let want_aaaa = qtype == type_aaaa || qtype == type_any in
      let v4 = keep_if want_a ip.0 in
      let v6 = keep_if want_aaaa ip.1 in
      if is_none v4 && is_none v6
      then nodata query params (address_types ip)
      else with_msg query (λ m. finish P (add_answer_aaaa (add_answer_a m v4) v6) query params)
