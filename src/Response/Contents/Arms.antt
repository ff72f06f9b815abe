-- ===== src/Response/Contents/Arms.antt =====
-- The arms of `build_apex_response`, each against a lookup at the apex.
use rustyalias.Common.{
  ℕ, ◌≡◌, ◌≢◌, refl, true, false, ◌&&◌, List, [], ◌∷◌, append-nil, Option, none, some, Bytes, ◌==◌,
  is_some, is_empty, Option-cases, inl, inr, ret,
}
use rustyalias.Wire.{
  question_section_end, rcode_noerror, offset_ancount, type_a, type_aaaa, type_txt, type_ns,
  type_soa, type_nsec, type_dnskey, type_cds, type_cdnskey,
}
use rustyalias.Dnssec.Key.{Platform}
use rustyalias.Response.{
  ZoneParams, Rr, Msg, question, apex_types, add_rr, add_a, add_aaaa, add_txt, add_soa, add_ns_set,
  add_dnskey, add_cds, add_cdnskey,
}
use rustyalias.Response.Build.{build_apex_response, records, no_data, apex_answer}
use rustyalias.Response.Start.{opened, opening, asked, with_question-opening}
use rustyalias.Response.Contents.{
  soa, a_records, aaaa_records, text_records, ns_records, dnskey_records, cds_records,
  cdnskey_records, apex_records, glue_records, Sections, matching, lookup, message_of,
}
use rustyalias.Response.Contents.Adds.{
  finish-response, add_ns_names-answers, add_ns_names-authority, add_in_bailiwick_glue-additional,
}
use rustyalias.Response.Contents.Hosts.{Looks, nodata-Looks}
use rustyalias.Response.Contents.Apex.{apex, apex_types-types_of, matching-apex_records}

module _ (P : Platform) (params : ZoneParams P) (query : Bytes) {end : ℕ}
    (e : question_section_end query ≡ some end) where
  abbrev pub start : Msg
  start = opened (opening query true rcode_noerror (asked query end))

  abbrev pub ApexLooks : ℕ → Type 0
  ApexLooks qtype =
      Looks P params query e (apex P params) qtype (build_apex_response P query qtype params)

  pub adds_records :
      (qtype : ℕ) (s : Sections)
      → apex_answer P start query qtype params ≡ ret (records (message_of P params query end s))
      → lookup P params query end (apex P params) qtype ≡ s
      → ApexLooks qtype
  unfolding build_apex_response
  adds_records qtype s same found =
      rw (with_question-opening query true rcode_noerror e, same, found)
        (finish-response P params query e s)

  pub has_no_data :
      (qtype : ℕ)
      → params.ns_names ≢ []
      → apex_answer P start query qtype params ≡ ret no_data
      → qtype == type_nsec && is_some params.dnssec ≡ false
      → matching qtype (apex_records P params) ≡ []
      → ApexLooks qtype
  unfolding build_apex_response
  has_no_data qtype served same other none_match =
      rw (with_question-opening query true rcode_noerror e, same)
        (nodata-Looks P params query e qtype (apex_types P params) (apex P params)
          (apex_types-types_of P params served) other none_match)

  pub soa_arm : ApexLooks type_soa
  unfolding apex_answer add_soa add_rr add_ns_set matching
  soa_arm =
      let m = add_soa P start offset_ancount question params in
      adds_records type_soa
        (record {
          answers = soa P params question ∷ [];
          authority = ns_records params.ns_names;
          additional = glue_records P params params.ns_names;
        })
        (rw (add_ns_names-authority params.ns_names m, add_in_bailiwick_glue-additional P params _)
          refl)
        (rw (matching-apex_records P params type_soa) refl)

  some_servers : (ns : List Bytes) → ns ≢ [] → is_empty (ns_records ns) ≡ false
  some_servers [] served = absurd (served refl)
  some_servers (n ∷ ns) served = refl

  pub ns_arm : params.ns_names ≢ [] → ApexLooks type_ns
  unfolding apex_answer add_ns_set
  ns_arm served =
      adds_records type_ns
        (record {
          answers = ns_records params.ns_names;
          authority = [];
          additional = glue_records P params params.ns_names;
        })
        (rw
          (add_ns_names-answers params.ns_names start, add_in_bailiwick_glue-additional P params _)
          refl)
        (rw
          (
            matching-apex_records P params type_ns,
            append-nil (ns_records params.ns_names),
            some_servers params.ns_names served,
          )
          refl)

  pub a_arm : ApexLooks type_a
  unfolding apex_answer add_a add_rr
  a_arm =
      adds_records type_a
        (record { answers = a_records (some params.glue_ip); authority = []; additional = [] }) refl
        (rw (matching-apex_records P params type_a) refl)

  abbrev only : List Rr → Sections
  only rs = record { answers = rs; authority = []; additional = [] }

  -- An arm for records that the apex has or has not.
  optional_arm :
      {A : Type 0} (o : Option A) (qtype : ℕ) (f : Option A → List Rr)
      → params.ns_names ≢ []
      → (o ≡ none
          → (apex_answer P start query qtype params ≡ ret no_data)
            × (matching qtype (apex_records P params) ≡ []))
      → ((x : A)
          → o ≡ some x
          → (apex_answer P start query qtype params
              ≡ ret (records (message_of P params query end (only (f (some x))))))
            × (lookup P params query end (apex P params) qtype ≡ only (f (some x))))
      → qtype == type_nsec && is_some params.dnssec ≡ false
      → ApexLooks qtype
  optional_arm o qtype f served without present other = elim (Option-cases o) [
    | inl e0 ↦ has_no_data qtype served (without e0).0 other (without e0).1
    | inr (x, e1) ↦ adds_records qtype (only (f (some x))) (present x e1).0 (present x e1).1
  ]

  pub aaaa_arm : params.ns_names ≢ [] → ApexLooks type_aaaa
  unfolding apex_answer add_aaaa add_rr
  aaaa_arm served =
      let found = matching-apex_records P params type_aaaa in
      optional_arm params.glue_ip6 type_aaaa aaaa_records served
        (λ e0. (rw e0 refl, rw (found, e0) refl)) (λ x e1. (rw e1 refl, rw (found, e1) refl)) refl

  pub txt_arm : params.ns_names ≢ [] → ApexLooks type_txt
  unfolding apex_answer add_txt add_rr
  txt_arm served =
      let found = matching-apex_records P params type_txt in
      optional_arm params.spf type_txt text_records served (λ e0. (rw e0 refl, rw (found, e0) refl))
        (λ x e1. (rw e1 refl, rw (found, e1) refl)) refl

  pub dnskey_arm : params.ns_names ≢ [] → ApexLooks type_dnskey
  unfolding apex_answer add_dnskey add_rr
  dnskey_arm served =
      let found = matching-apex_records P params type_dnskey in
      optional_arm params.dnssec type_dnskey (dnskey_records P params) served
        (λ e0. (rw e0 refl, rw (found, e0) refl)) (λ x e1. (rw e1 refl, rw (found, e1) refl)) refl

  pub cds_arm : params.ns_names ≢ [] → ApexLooks type_cds
  unfolding apex_answer add_cds add_rr
  cds_arm served =
      let found = matching-apex_records P params type_cds in
      optional_arm params.dnssec type_cds (cds_records P params) served
        (λ e0. (rw e0 refl, rw (found, e0) refl)) (λ x e1. (rw e1 refl, rw (found, e1) refl)) refl

  pub cdnskey_arm : params.ns_names ≢ [] → ApexLooks type_cdnskey
  unfolding apex_answer add_cdnskey add_rr
  cdnskey_arm served =
      let found = matching-apex_records P params type_cdnskey in
      optional_arm params.dnssec type_cdnskey (cdnskey_records P params) served
        (λ e0. (rw e0 refl, rw (found, e0) refl)) (λ x e1. (rw e1 refl, rw (found, e1) refl)) refl
