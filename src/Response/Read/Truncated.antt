-- ===== src/Response/Read/Truncated.antt =====
-- What a client reads in a response that is cut.
use rustyalias.Common.{
  ◌⊎◌, ℕ, ◌-◌, ◌≡◌, refl, sym, ap, ◌∙◌, arith, false, [], append-nil, some, Bytes, length,
  length-slice, get_or, bit_or, ltb, Bool-cases, inl, inr, List,
}
use rustyalias.Wire.{question_section_end}
use rustyalias.Wire.Question.{question_section_end_bounds}
use rustyalias.Edns.{query_has_opt, udp_response_limit}
use rustyalias.Response.Packet.{Packet, wire}
use rustyalias.Response.Layout.{with_opt}
use rustyalias.Response.Truncate.{cut_packet, truncated}
use rustyalias.Response.Read.{Seen}
use rustyalias.Response.Read.Whole.{Reading, read_message}
use rustyalias.Response.Read.Emitted.{
  Emitted, AllFit, HasNoRecords, raised, read_with_opt, opt_of, read_raised,
}

abbrev nothing : Emitted
nothing = record { answers = []; authority = []; additional = [] }

nothing-AllFit : AllFit nothing
nothing-AllFit = record {
  answers_fit = tt;
  authority_fit = tt;
  additional_fit = tt;
  few_answers = omega arith;
  few_authority = omega arith;
  few_additional = omega arith;
}

-- No record, but for an OPT record.
abbrev pub without_records : List Seen → Reading
without_records opt = record { answers = []; authority = []; additional = opt }

module _ (response query : Bytes) {end : ℕ} (e : question_section_end query ≡ some end) where
  abbrev cut : Packet
  cut = cut_packet response query end

  length-cut : length cut.body ≡ end - 12
  length-cut =
      let (lo, hi) = question_section_end_bounds query e in
      length-slice query 12 end (omega arith) hi

  cut-HasNoRecords : HasNoRecords cut
  cut-HasNoRecords = record { no_answers = refl; no_authority = refl; no_additional = refl }

  raised-nothing : raised cut nothing ≡ cut
  raised-nothing = ap (λ b. record cut { body = b }) (simp append-nil refl)

  pub read-truncated :
      (read_message (end - 12) (truncated response query e) ≡ some (without_records []))
      ⊎ (read_message (end - 12) (truncated response query e)
          ≡ some (without_records (opt_of query false)))
  read-truncated =
      let whole = length (wire (with_opt query false cut)) in
      elim (Bool-cases (ltb (udp_response_limit query) whole)) [
        | inl over ↦ rw over (
            inl (
              ap (λ p. read_message (end - 12) (wire p)) (sym raised-nothing)
              ∙ read_raised (end - 12) cut nothing length-cut cut-HasNoRecords nothing-AllFit))
        | inr under ↦ rw under (
            inr (
              ap (λ p. read_message (end - 12) (wire (with_opt query false p))) (sym raised-nothing)
              ∙ read_with_opt (end - 12) cut nothing length-cut cut-HasNoRecords nothing-AllFit
                  query false))
      ]

  -- The TC bit is set.
  pub flags-truncated : get_or (truncated response query e) 2 0 ≡ bit_or (get_or response 2 0) 2
  flags-truncated =
      elim (Bool-cases
        (ltb (udp_response_limit query) (length (wire (with_opt query false cut))))) [
          | inl over ↦ rw over refl
          | inr under ↦
              rw under
                (elim (Bool-cases (query_has_opt query)) [ inl y ↦ rw y refl | inr n ↦ rw n refl ])
        ]
