-- ===== src/Response/Contents/Every.antt =====
-- The arms for NSEC, ANY and the other types, and `build_apex_response` against a lookup at the apex.
use rustyalias.Common.{
  ==_iff, ℕ, ◌≡◌, ◌≢◌, refl, sym, ap, ◌∙◌, false, [], ◌∷◌, ◌++◌, append-nil, append_assoc, Option,
  none, some, Bytes, ◌==◌, if◌then◌else◌, is_some, is_none, Option-cases, Bool-cases, inl, inr, ret,
}
use rustyalias.Net.{Ipv6Addr}
use rustyalias.Wire.{
  question_section_end, offset_ancount, type_a, type_aaaa, type_txt, type_any, type_ns, type_soa,
  type_nsec, type_dnskey, type_cds, type_cdnskey,
}
use rustyalias.Dnssec.Key.{Platform}
use rustyalias.Response.{
  ZoneParams, Msg, question, apex_types, add_rr, add_a, add_aaaa, add_txt, add_soa, add_ns_set,
  add_dnskey, add_cds, add_cdnskey,
}
use rustyalias.Response.Build.{
  build_apex_response, records, apex_answer, add_answer_aaaa, add_answer_txt,
}
use rustyalias.Response.Contents.{
  soa, aaaa_records, text_records, ns_records, key_records, apex_records, glue_records, message_of,
  nsec_record,
}
use rustyalias.Response.Contents.Adds.{
  add_ns_names-answers, add_in_bailiwick_glue-additional, add_nsec-record, with_answers,
}
use rustyalias.Response.Contents.Hosts.{Looks}
use rustyalias.Response.Contents.Apex.{apex, apex_types-types_of, matching-apex_records}
use rustyalias.Response.Contents.Arms.{
  start, ApexLooks, soa_arm, ns_arm, a_arm, aaaa_arm, txt_arm, dnskey_arm, cds_arm, cdnskey_arm,
  adds_records, has_no_data,
}

module _ (P : Platform) (params : ZoneParams P) (query : Bytes) {end : ℕ}
    (e : question_section_end query ≡ some end) where
  nsec_arm : params.ns_names ≢ [] → ApexLooks P params query e type_nsec
  unfolding apex_answer add_rr
  nsec_arm served = elim (Option-cases params.dnssec) [
    | inl no_key ↦
        has_no_data P params query e type_nsec served (rw no_key refl) (rw no_key refl)
          (matching-apex_records P params type_nsec)
    | inr (key, is_key) ↦
        adds_records P params query e type_nsec
          (record {
            answers = nsec_record P params query end (apex_records P params) ∷ [];
            authority = [];
            additional = [];
          })
          (rw
            (
              ap (λ o. is_none o) is_key,
              e,
              add_nsec-record P params query e (start P params query e) offset_ancount
                  (apex_types P params) (apex_records P params)
                  (apex_types-types_of P params served),
            )
            refl)
          (rw is_key refl)
  ]

  other_arm :
      (qtype : ℕ)
      → params.ns_names ≢ []
      → qtype == type_soa ≡ false
      → qtype == type_ns ≡ false
      → qtype == type_a ≡ false
      → qtype == type_aaaa ≡ false
      → qtype == type_txt ≡ false
      → qtype == type_dnskey ≡ false
      → qtype == type_cds ≡ false
      → qtype == type_cdnskey ≡ false
      → qtype == type_nsec ≡ false
      → qtype == type_any ≡ false
      → ApexLooks P params query e qtype
  unfolding apex_answer
  other_arm qtype served a b c d f g h i j k =
      has_no_data P params query e qtype served (rw (a, b, c, d, f, g, h, i, j, k) refl) (rw j refl)
        (rw (matching-apex_records P params qtype, a, b, c, d, f, g, h, i, k) refl)

  aaaa-with_answers :
      (m : Msg) (ip6 : Option Ipv6Addr) → add_answer_aaaa m ip6 ≡ with_answers m (aaaa_records ip6)
  unfolding add_aaaa add_rr
  aaaa-with_answers m none = ap (λ rs. record m { answers = rs }) (sym (append-nil m.answers))
  aaaa-with_answers m (some ip6) = refl

  txt-with_answers :
      (m : Msg) (txt : Option Bytes) → add_answer_txt m txt ≡ with_answers m (text_records txt)
  unfolding add_txt add_rr
  txt-with_answers m none = ap (λ rs. record m { answers = rs }) (sym (append-nil m.answers))
  txt-with_answers m (some txt) = refl

  keys-with_answers :
      (m : Msg)
      → (if is_some params.dnssec
          then add_cdnskey P (add_cds P (add_dnskey P m params) params) params
          else m)
        ≡ with_answers m (key_records P params params.dnssec)
  unfolding add_dnskey add_cds add_cdnskey add_rr
  keys-with_answers m = elim (Option-cases params.dnssec) [
    | inl no_key ↦ rw no_key (ap (λ rs. record m { answers = rs }) (sym (append-nil m.answers)))
    | inr (key, is_key) ↦ rw is_key (
        ap (λ rs. record m { answers = rs })
          (append_assoc (m.answers ++ (_ ∷ [])) (_ ∷ []) (_ ∷ [])
            ∙ append_assoc m.answers (_ ∷ []) (_ ∷ (_ ∷ []))))
  ]

  any_arm : ApexLooks P params query e type_any
  unfolding apex_answer add_soa add_a add_rr add_ns_set
  any_arm =
      let m1 = with_answers (start P params query e) (soa P params question ∷ []) in
      let m2 = with_answers m1 (ns_records params.ns_names) in
      let m3 = add_a m2 offset_ancount question params.glue_ip in
      let m4 = with_answers m3 (aaaa_records params.glue_ip6) in
      let m5 = with_answers m4 (text_records params.spf) in
      adds_records P params query e type_any
        (record {
          answers = apex_records P params;
          authority = [];
          additional = glue_records P params params.ns_names;
        })
        (rw
          (
            add_ns_names-answers params.ns_names m1,
            aaaa-with_answers m3 params.glue_ip6,
            txt-with_answers m4 params.spf,
            keys-with_answers m5,
            add_in_bailiwick_glue-additional P params _,
          )
          (ap
            (λ rs. ret (
              records (
                message_of P params query end (record {
                  answers = rs;
                  authority = [];
                  additional = glue_records P params params.ns_names;
                }))))
            (simp append_assoc refl)))
        (rw (matching-apex_records P params type_any) refl)

  -- The arm for a type, or the arms below it.
  arm :
      (qtype t : ℕ)
      → ApexLooks P params query e t
      → (qtype == t ≡ false → ApexLooks P params query e qtype)
      → ApexLooks P params query e qtype
  arm qtype t here below = elim (Bool-cases (qtype == t)) [
    | inl same ↦ rw ((==_iff qtype t).0 same) here
    | inr other ↦ below other
  ]

  -- For any type, the response for the apex of a zone with a name server is what the lookup gives.
  pub build_apex_response-Looks :
      (qtype : ℕ)
      → params.ns_names ≢ []
      → Looks P params query e (apex P params) qtype (build_apex_response P query qtype params)
  build_apex_response-Looks qtype served = arm qtype type_soa (soa_arm P params query e) (λ a.
      arm qtype type_ns (ns_arm P params query e served) (λ b.
        arm qtype type_a (a_arm P params query e) (λ c.
          arm qtype type_aaaa (aaaa_arm P params query e served) (λ d.
            arm qtype type_txt (txt_arm P params query e served) (λ f.
              arm qtype type_dnskey (dnskey_arm P params query e served) (λ g.
                arm qtype type_cds (cds_arm P params query e served) (λ h.
                  arm qtype type_cdnskey (cdnskey_arm P params query e served) (λ i.
                    arm qtype type_nsec (nsec_arm served) (λ j.
                      arm qtype type_any any_arm
                        (λ k. other_arm qtype served a b c d f g h i j k))))))))))
