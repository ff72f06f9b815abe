-- ===== src/Response/Read/Finish.antt =====
-- What a client reads in the bytes that `finish` returns.
use rustyalias.Common.{
  ℕ, ◌-◌, ◌≡◌, refl, arith, true, ◌++◌, map, some, Bytes, length, length-slice, ret,
}
use rustyalias.Wire.{question_section_end, rcode_noerror}
use rustyalias.Wire.Question.{question_section_end_bounds}
use rustyalias.Dnssec.Key.{Platform}
use rustyalias.Response.{ZoneParams, Msg, sign}
use rustyalias.Response.Emit.{group_rrs, finish}
use rustyalias.Response.Packet.{answers, authority, additional, Packet, wire, push_all}
use rustyalias.Response.Sections.{section_records}
use rustyalias.Response.Layout.{lay_out, laid_out, with_opt, finish-wire}
use rustyalias.Response.Start.{opening, asked, opening-HasCounts}
use rustyalias.Response.Read.{seen}
use rustyalias.Response.Read.Whole.{Reading, read_message}
use rustyalias.Response.Read.Emitted.{
  Emitted, AllFit, HasNoRecords, raised, sections_raised, opt_of, read_with_opt,
}

module _ (P : Platform) (query : Bytes) (params : ZoneParams P) where
  -- The records of a message in their sets, with the signatures, behind the packet `p`.
  abbrev pub emitted : ℕ → Msg → Packet → Emitted
  emitted end m p =
      let an = section_records P query end params answers p (group_rrs m.answers) in
      let p1 = push_all answers p an in
      let ns = section_records P query end params authority p1 (group_rrs m.authority) in
      let p2 = push_all authority p1 ns in
      let ar = section_records P query end params additional p2 (group_rrs m.additional) in
      record { answers = an; authority = ns; additional = ar }

  laid_out-raised :
      (end : ℕ) (m : Msg) (p : Packet)
      → HasNoRecords p
      → AllFit (emitted end m p)
      → laid_out P query end params m p ≡ raised p (emitted end m p)
  unfolding lay_out
  laid_out-raised end m p none_yet fit = sections_raised p (emitted end m p) none_yet fit

  -- What a client should find.
  abbrev pub reading_of : Emitted → Reading
  reading_of x = record {
    answers = map seen x.answers;
    authority = map seen x.authority;
    additional = map seen x.additional ++ opt_of query (sign P params);
  }

  module _ {end : ℕ} (e : question_section_end query ≡ some end) (m : Msg) where
    abbrev start : Packet
    start = opening query true rcode_noerror (asked query end)

    length-asked : length (asked query end) ≡ end - 12
    length-asked =
        let (lo, hi) = question_section_end_bounds query e in
        length-slice query 12 end (omega arith) hi

    pub laid_out-read :
        AllFit (emitted end m start)
        → read_message
            (end - 12)
            (wire (with_opt query (sign P params) (laid_out P query end params m start)))
          ≡ some (reading_of (emitted end m start))
    laid_out-read fit =
        let none_yet : HasNoRecords start = record {
          no_answers = refl;
          no_authority = refl;
          no_additional = refl;
        } in
        rw (laid_out-raised end m start none_yet fit) (
          read_with_opt (end - 12) start (emitted end m start) length-asked none_yet fit query
            (sign P params))

    -- For a query that has a question, and a message with only its opening written, whose records
    -- fit their bytes, `finish` returns bytes in which a client reads the records of the three
    -- sections, in their sets and with their signatures, and then the OPT record if the query had
    -- one.
    pub finish-read :
        m.buf ≡ wire (opening query true rcode_noerror (asked query end))
        → AllFit (emitted end m (opening query true rcode_noerror (asked query end)))
        → (out : Bytes) × (finish P m query params ≡ ret out)
          × (read_message (end - 12) out
              ≡ some
                  (reading_of (emitted end m (opening query true rcode_noerror (asked query end)))))
    finish-read opened fit = (
      _,
      finish-wire P query e params m start opened
          (opening-HasCounts query true rcode_noerror (asked query end)),
      laid_out-read fit,
    )
