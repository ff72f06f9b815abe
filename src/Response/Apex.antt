-- ===== src/Response/Apex.antt =====
-- The responses for the apex of the zone: every arm of the `match` on the query type.
use rustyalias.Common.{
  ℕ, ◌≡◌, refl, ◌∙◌, Bool, Option, none, some, Bytes, ◌==◌, is_some, is_none, if-either, Outcome,
  ret, ◌>>=◌,
}
use rustyalias.Net.{Ipv6Addr}
use rustyalias.Wire.{
  question_section_end, offset_ancount, offset_nscount, type_soa, type_ns, type_a, type_aaaa,
  type_txt, type_dnskey, type_cds, type_cdnskey, type_nsec, type_any,
}
use rustyalias.Dnssec.Key.{Platform, DnssecKey}
use rustyalias.Response.{
  ZoneParams, Owner, question, apex_types, add_in_bailiwick_glue, dnskey_record, cds_record,
  cdnskey_record, Msg, add_rr, add_a, add_aaaa, add_txt, add_soa, add_ns_set, add_dnskey, add_cds,
  add_cdnskey,
}
use rustyalias.Response.Build.{
  build_apex_response, ApexAnswer, records, no_data, empty, apex_answer, apex_nsec, any_answer,
  finish_apex, add_answer_aaaa, add_answer_txt, aaaa_arm, txt_arm, when_signed,
}
use rustyalias.Response.Builders.{
  add_rr-buf, add_ns_names-buf, add_in_bailiwick_glue-Keeps, add_nsec-Keeps,
}
use rustyalias.Response.Replies.{
  Replies, IsOpening, finish-Replies, with_msg-Replies, nodata-Replies, Replies-by,
}

-- What an arm of the apex's `match` hands on: a message with only its opening written, or the wish
-- for a response with no data. It is never empty, as there is a question.
abbrev Opens : Bytes → ℕ → ApexAnswer → Type 0
Opens query end (records m) = IsOpening query end m
Opens query end no_data = Unit
Opens query end empty = ⊥

abbrev Answers : Bytes → ℕ → Outcome ApexAnswer → Type 0
Answers query end o = (a : ApexAnswer) × (o ≡ ret a) × Opens query end a

module _ (P : Platform) (query : Bytes) {end : ℕ} (e : question_section_end query ≡ some end)
    (params : ZoneParams P) (m : Msg) (b : IsOpening query end m) where
  one_record : (c : ℕ) (o : Owner) (t l : ℕ) (r : Bytes) → IsOpening query end (add_rr m c o t l r)
  one_record c o t l r = add_rr-buf m c o t l r ∙ b

  soa_opens : (c : ℕ) → IsOpening query end (add_soa P m c question params)
  unfolding add_soa
  soa_opens c = one_record c _ _ _ _

  -- The arms that end in the glue of the name servers.
  glue_arm :
      (m1 : Msg)
      → IsOpening query end m1
      → Answers query end (do m2 ← add_in_bailiwick_glue P m1 params; ret (records m2))
  glue_arm m1 b1 =
      let (m2, f, b2) = add_in_bailiwick_glue-Keeps P params m1 in rw f (_, refl, b2 ∙ b1)

  ns_set_opens :
      (c : ℕ) (m1 : Msg) → IsOpening query end m1 → IsOpening query end (add_ns_set P m1 c params)
  unfolding add_ns_set
  ns_set_opens c m1 b1 = add_ns_names-buf c params.ns_names m1 ∙ b1

  aaaa_arm-Answers : (ip6 : Option Ipv6Addr) → Answers query end (aaaa_arm m ip6)
  unfolding add_aaaa
  aaaa_arm-Answers none = (no_data, refl, tt)
  aaaa_arm-Answers (some ip6) = (_, refl, one_record _ _ _ _ _)

  txt_arm-Answers : (txt : Option Bytes) → Answers query end (txt_arm m txt)
  unfolding add_txt
  txt_arm-Answers none = (no_data, refl, tt)
  txt_arm-Answers (some txt) = (_, refl, one_record _ _ _ _ _)

  when_signed-Answers :
      (o : Outcome ApexAnswer) → Answers query end o → Answers query end (when_signed P params o)
  when_signed-Answers o a =
      if-either (Answers query end) (is_none params.dnssec) _ o (no_data, refl, tt) a

  dnskey_opens : (m1 : Msg) → IsOpening query end m1 → IsOpening query end (add_dnskey P m1 params)
  unfolding add_dnskey
  dnskey_opens m1 b1 = key_opens params.dnssec
    where
      key_opens : (key : Option (DnssecKey P)) → IsOpening query end (dnskey_record P m1 params key)
      key_opens none = b1
      key_opens (some key) = add_rr-buf m1 _ _ _ _ _ ∙ b1

  cds_opens : (m1 : Msg) → IsOpening query end m1 → IsOpening query end (add_cds P m1 params)
  unfolding add_cds
  cds_opens m1 b1 = key_opens params.dnssec
    where
      key_opens : (key : Option (DnssecKey P)) → IsOpening query end (cds_record P m1 params key)
      key_opens none = b1
      key_opens (some key) = add_rr-buf m1 _ _ _ _ _ ∙ b1

  cdnskey_opens :
      (m1 : Msg) → IsOpening query end m1 → IsOpening query end (add_cdnskey P m1 params)
  unfolding add_cdnskey
  cdnskey_opens m1 b1 = key_opens params.dnssec
    where
      key_opens :
          (key : Option (DnssecKey P)) → IsOpening query end (cdnskey_record P m1 params key)
      key_opens none = b1
      key_opens (some key) = add_rr-buf m1 _ _ _ _ _ ∙ b1

  aaaa_opens :
      (ip6 : Option Ipv6Addr) (m1 : Msg)
      → IsOpening query end m1
      → IsOpening query end (add_answer_aaaa m1 ip6)
  unfolding add_aaaa
  aaaa_opens none m1 b1 = b1
  aaaa_opens (some ip6) m1 b1 = add_rr-buf m1 _ _ _ _ _ ∙ b1

  txt_opens :
      (txt : Option Bytes) (m1 : Msg)
      → IsOpening query end m1
      → IsOpening query end (add_answer_txt m1 txt)
  unfolding add_txt
  txt_opens none m1 b1 = b1
  txt_opens (some txt) m1 b1 = add_rr-buf m1 _ _ _ _ _ ∙ b1

  any_arm : Answers query end (any_answer P m params)
  unfolding add_a
  any_arm =
      let m1 = add_ns_set P (add_soa P m offset_ancount question params) offset_ancount params in
      let b1 = ns_set_opens offset_ancount _ (soa_opens offset_ancount) in
      let m2 = add_a m1 offset_ancount question params.glue_ip in
      let b2 = add_rr-buf m1 _ _ _ _ _ ∙ b1 in
      let m3 = add_answer_txt (add_answer_aaaa m2 params.glue_ip6) params.spf in
      let b3 = txt_opens params.spf _ (aaaa_opens params.glue_ip6 m2 b2) in
      let b4 = cdnskey_opens _ (cds_opens _ (dnskey_opens m3 b3)) in
      glue_arm _ (if-either (IsOpening query end) (is_some params.dnssec) _ m3 b4 b3)

  nsec_arm : Answers query end (apex_nsec P m query params (question_section_end query))
  nsec_arm =
      let (m', f, b') = add_nsec-Keeps P params m offset_ancount query (apex_types P params) e in
      rw (e, f) (records m', refl, b' ∙ b)

  apex_answer-Answers : (qtype : ℕ) → Answers query end (apex_answer P m query qtype params)
  unfolding apex_answer add_a
  apex_answer-Answers qtype =
      let Q = Answers query end in
      let either = λ (b : Bool) (x y : Outcome ApexAnswer). if-either Q b x y in
      either (qtype == type_soa) _ _
        (glue_arm _ (ns_set_opens offset_nscount _ (soa_opens offset_ancount)))
        (either (qtype == type_ns) _ _ (glue_arm _ (ns_set_opens offset_ancount m b)) (
          either (qtype == type_a) _ _ (_, refl, one_record _ _ _ _ _)
            (either (qtype == type_aaaa) _ _ (aaaa_arm-Answers params.glue_ip6) (
              either (qtype == type_txt) _ _ (txt_arm-Answers params.spf) (
                either (qtype == type_dnskey) _ _
                  (when_signed-Answers _ (_, refl, dnskey_opens m b))
                  (either (qtype == type_cds) _ _ (when_signed-Answers _ (_, refl, cds_opens m b)) (
                    either (qtype == type_cdnskey) _ _
                      (when_signed-Answers _ (_, refl, cdnskey_opens m b))
                      (either (qtype == type_nsec) _ _ (when_signed-Answers _ nsec_arm)
                        (either (qtype == type_any) _ _ any_arm (no_data, refl, tt))))))))))

module _ (P : Platform) (query : Bytes) {end : ℕ} (e : question_section_end query ≡ some end)
    (params : ZoneParams P) where
  finish_apex-Replies :
      (a : ApexAnswer)
      → Opens query end a
      → Replies P query end params (finish_apex P query params a)
  finish_apex-Replies (records m) b = finish-Replies P query e params m b
  finish_apex-Replies no_data b = nodata-Replies P query e params (apex_types P params)
  finish_apex-Replies empty b = absurd b

  -- For a query that has a question, and any type, `build_apex_response` returns an authoritative
  -- response with that question, whose counts are those of the records in it.
  pub build_apex_response-Replies :
      (qtype : ℕ) → Replies P query end params (build_apex_response P query qtype params)
  unfolding build_apex_response
  build_apex_response-Replies qtype =
      with_msg-Replies P query e params
        (λ m. do answer ← apex_answer P m query qtype params; finish_apex P query params answer)
        (λ m b.
          let (a, f, opens) = apex_answer-Answers P query e params m b qtype in
          Replies-by P query e params (rw f) (finish_apex-Replies a opens))
