-- ===== src/Response/Contents/Adds.antt =====
-- The steps that add records to a message, as records behind those of a section.
use rustyalias.Common.{
  ℕ, ◌-◌, ◌≡◌, refl, sym, ap, ◌∙◌, arith, Bool, true, false, List, [], ◌∷◌, ◌++◌, append-nil,
  append_assoc, some, Bytes, take, drop, if◌then◌else◌, ret, slice_in, >>=-eq, Option-cases,
  Bool-cases, inl, inr,
}
use rustyalias.Wire.{question_section_end, offset_ancount, offset_nscount, rcode_noerror, type_nsec}
use rustyalias.Wire.Question.{question_section_end_bounds}
use rustyalias.Wire.Zones.{name_in_bailiwick_lem}
use rustyalias.Dnssec.Bitmap.{nsec_types}
use rustyalias.Dnssec.Bitmap.Returns.{nsec_rdata-Returns}
use rustyalias.Dnssec.Key.{Platform}
use rustyalias.Response.{
  ZoneParams, question, name, Rr, Msg, add_rr, add_ns, add_ns_names, add_a, add_aaaa, add_glue,
  add_glue_names, add_in_bailiwick_glue, add_soa, sign,
}
use rustyalias.Response.Emit.{finish}
use rustyalias.Response.Build.{add_nsec, nodata, nodata_message}
use rustyalias.Response.Layout.{finish-wire}
use rustyalias.Response.Start.{opened, opening, asked, opening-HasCounts, with_question-opening}
use rustyalias.Response.Contents.{
  soa, Sections, ns_records, in_bailiwick, glue_of, glue_records, types_of, nsec_record, denial,
  message_of, response,
}

abbrev pub with_answers : Msg → List Rr → Msg
with_answers m rs = record m { answers = m.answers ++ rs }

abbrev pub with_authority : Msg → List Rr → Msg
with_authority m rs = record m { authority = m.authority ++ rs }

abbrev pub with_additional : Msg → List Rr → Msg
with_additional m rs = record m { additional = m.additional ++ rs }

pub add_ns_names-answers :
    (ns : List Bytes) (m : Msg) → add_ns_names m offset_ancount ns ≡ with_answers m (ns_records ns)
unfolding add_ns_names add_ns add_rr
add_ns_names-answers [] m = ap (λ rs. record m { answers = rs }) (sym (append-nil m.answers))
add_ns_names-answers (n ∷ ns) m =
    add_ns_names-answers ns (add_ns m offset_ancount question n)
    ∙ ap (λ rs. record m { answers = rs }) (append_assoc m.answers _ (ns_records ns))

pub add_ns_names-authority :
    (ns : List Bytes) (m : Msg)
    → add_ns_names m offset_nscount ns ≡ with_authority m (ns_records ns)
unfolding add_ns_names add_ns add_rr
add_ns_names-authority [] m = ap (λ rs. record m { authority = rs }) (sym (append-nil m.authority))
add_ns_names-authority (n ∷ ns) m =
    add_ns_names-authority ns (add_ns m offset_nscount question n)
    ∙ ap (λ rs. record m { authority = rs }) (append_assoc m.authority _ (ns_records ns))

module _ (P : Platform) (params : ZoneParams P) where
  add_glue-additional :
      (m : Msg) (n : Bytes)
      → add_glue P m n params ≡ with_additional m (glue_of P params n params.glue_ip6)
  unfolding add_a add_aaaa add_rr
  add_glue-additional m n = elim (Option-cases params.glue_ip6) [
    | inl none6 ↦ rw none6
    | inr (ip6, some6) ↦
        rw some6 (ap (λ rs. record m { additional = rs }) (append_assoc m.additional _ _))
  ]

  add_glue_names_step :
      (ns : List Bytes) (m : Msg) (n : Bytes) (inside : Bool)
      → ((m1 : Msg)
          → add_glue_names P m1 ns params ≡ ret (with_additional m1 (glue_records P params ns)))
      → add_glue_names P (if inside then add_glue P m n params else m) ns params
        ≡ ret (
            with_additional m (
              (if inside then glue_of P params n params.glue_ip6 else [])
              ++ glue_records P params ns))
  add_glue_names_step ns m n true ih =
      ap (λ m1. add_glue_names P m1 ns params) (add_glue-additional m n)
      ∙ ih (with_additional m (glue_of P params n params.glue_ip6))
      ∙ ap (λ rs. ret (record m { additional = rs }))
          (append_assoc m.additional (glue_of P params n params.glue_ip6)
            (glue_records P params ns))
  add_glue_names_step ns m n false ih = ih m

  add_glue_names-additional :
      (ns : List Bytes) (m : Msg)
      → add_glue_names P m ns params ≡ ret (with_additional m (glue_records P params ns))
  unfolding add_glue_names glue_records
  add_glue_names-additional [] m =
      ap (λ rs. ret (record m { additional = rs })) (sym (append-nil m.additional))
  add_glue_names-additional (n ∷ ns) m = rw (name_in_bailiwick_lem n params.zone) (
      add_glue_names_step ns m n (in_bailiwick n params.zone)
        (λ m1. add_glue_names-additional ns m1))

  pub add_in_bailiwick_glue-additional :
      (m : Msg)
      → add_in_bailiwick_glue P m params
        ≡ ret (with_additional m (glue_records P params params.ns_names))
  unfolding add_in_bailiwick_glue
  add_in_bailiwick_glue-additional m = add_glue_names-additional params.ns_names m

  module _ (query : Bytes) {end : ℕ} (e : question_section_end query ≡ some end) where
    pub add_nsec-record :
        (m : Msg) (c : ℕ) (types : List ℕ) (rs : List Rr)
        → types ≡ types_of rs
        → add_nsec P m c query end types params
          ≡ ret (
              add_rr m c question type_nsec params.minimum
                (nsec_record P params query end rs).rdata)
    unfolding add_nsec
    add_nsec-record m c types rs same =
        let (lo, hi) = question_section_end_bounds query e in
        let q = take (end - 4 - 12) (drop 12 query) in
        let (rdata, f) = nsec_rdata-Returns q (nsec_types (types_of rs)) in
        rw (same, slice_in query 12 (end - 4) (omega arith) (omega arith), f)

    pub finish-response :
        (s : Sections)
        → finish P (message_of P params query end s) query params
          ≡ ret (response P params query end s)
    unfolding response
    finish-response s =
        finish-wire P query e params (message_of P params query end s) _ refl
          (opening-HasCounts query true rcode_noerror (asked query end))

    -- A response without answers: the SOA record, and the NSEC record where the response is signed.
    pub nodata-denial :
        (types : List ℕ) (rs : List Rr)
        → types ≡ types_of rs
        → nodata P query params types
          ≡ ret (
              response P params query end (record {
                answers = [];
                authority = denial P params query end rs;
                additional = [];
              }))
    unfolding nodata nodata_message add_soa add_rr
    nodata-denial types rs same =
        let start =
          add_soa P (opened (opening query true rcode_noerror (asked query end))) offset_nscount
            (name params.zone) params in
        rw (with_question-opening query true rcode_noerror e) (elim (Bool-cases (sign P params)) [
          | inl signed ↦
              rw (signed, e)
                (>>=-eq _ (add_nsec-record start offset_nscount types rs same) (
                  finish-response (record {
                    answers = [];
                    authority =
                        soa P params (name params.zone) ∷ nsec_record P params query end rs ∷ [];
                    additional = [];
                  })))
          | inr plain ↦ rw plain (
              finish-response (record {
                answers = [];
                authority = soa P params (name params.zone) ∷ [];
                additional = [];
              }))
        ])
