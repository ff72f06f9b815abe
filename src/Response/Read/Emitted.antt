-- ===== src/Response/Read/Emitted.antt =====
-- The three sections and the OPT record behind an opening, read as a client reads them.
use rustyalias.Common.{
  Bool-cases, inl, inr, length-map, ℕ, ◌+◌, ◌<◌, ◌≡◌, refl, sym, ap, ◌∙◌, arith, Bool, true, false,
  List, [], ◌∷◌, ◌++◌, append_assoc, append-nil, map, some, Bytes, length, length-append, All,
  if◌then◌else◌, saturating_add16,
}
use rustyalias.Wire.{type_opt, edns_udp_size}
use rustyalias.Edns.{query_has_opt, opt_record}
use rustyalias.Response.{Rr}
use rustyalias.Response.Packet.{
  answers, authority, additional, Packet, wire, bump, push_all, push_bytes,
}
use rustyalias.Response.Layout.{with_opt}
use rustyalias.Response.Read.{
  Seen, labels, read_records, read_record, read_owner, read_name, read_fields-seen, seen, Fits,
  records_bytes, Reads, records_bytes-Reads,
}
use rustyalias.Response.Read.Whole.{read_message, read_message-wire, raise, push_all-raise}

-- What `finish` adds to the packet `p`, section by section.
pub record Emitted : Type 0 where
  pub answers : List Rr
  pub authority : List Rr
  pub additional : List Rr

-- The records fit their bytes, and so do their numbers; there is room for an OPT record.
pub record AllFit (x : Emitted) : Type 0 where
  pub answers_fit : All Fits x.answers
  pub authority_fit : All Fits x.authority
  pub additional_fit : All Fits x.additional
  pub few_answers : length x.answers < 65536
  pub few_authority : length x.authority < 65536
  pub few_additional : length x.additional < 65535

abbrev pub opt_seen : Bool → Seen
opt_seen do_bit = record {
  owner = labels (0 ∷ []);
  typ = type_opt;
  class = edns_udp_size;
  ttl = if do_bit then 0x8000 else 0;
  rdata = [];
}

abbrev pub opt_of : Bytes → Bool → List Seen
opt_of query do_bit = if query_has_opt query then opt_seen do_bit ∷ [] else []

opt_record-seen : (do_bit : Bool) → Reads (opt_record do_bit) (opt_seen do_bit ∷ [])
unfolding read_records read_record read_owner read_name
opt_record-seen true rest =
    rw
      (read_fields-seen (labels (0 ∷ [])) 41 1232 32768 [] rest (omega arith) (omega arith)
        (omega arith) (omega arith))
      refl
opt_record-seen false rest =
    rw
      (read_fields-seen (labels (0 ∷ [])) 41 1232 0 [] rest (omega arith) (omega arith)
        (omega arith) (omega arith))
      refl

abbrev pub raised : Packet → Emitted → Packet
raised p x = record p {
  ancount = p.ancount + length x.answers;
  nscount = p.nscount + length x.authority;
  arcount = p.arcount + length x.additional;
  body =
      ((p.body ++ records_bytes x.answers) ++ records_bytes x.authority)
      ++ records_bytes x.additional;
}

pub record HasNoRecords (p : Packet) : Type 0 where
  pub no_answers : p.ancount ≡ 0
  pub no_authority : p.nscount ≡ 0
  pub no_additional : p.arcount ≡ 0

pub sections_raised :
    (p : Packet) (x : Emitted)
    → HasNoRecords p
    → AllFit x
    → push_all additional
        (push_all authority (push_all answers p x.answers) x.authority)
        x.additional
      ≡ raised p x
sections_raised p x h fit =
    let p1 = raise answers (length x.answers) (push_bytes (records_bytes x.answers) p) in
    let p2 = raise authority (length x.authority) (push_bytes (records_bytes x.authority) p1) in
    let f1 = fit.few_answers in
    let f2 = fit.few_authority in
    let f3 = fit.few_additional in
    ap (λ p0. push_all additional (push_all authority p0 x.authority) x.additional)
      (push_all-raise answers x.answers p (omega arith))
    ∙ ap (λ p0. push_all additional p0 x.additional)
        (push_all-raise authority x.authority p1 (omega arith))
    ∙ push_all-raise additional x.additional p2 (omega arith)

records_bytes-seen : (rs : List Rr) → All Fits rs → Reads (records_bytes rs) (map seen rs)
unfolding read_records
records_bytes-seen rs h =
    let read = records_bytes-Reads rs [] [] h (λ rest. refl) in
    rw (append-nil (records_bytes rs), append-nil (map seen rs)) at read

four_parts : (q a n r : Bytes) → ((q ++ a) ++ n) ++ r ≡ q ++ (a ++ (n ++ r))
four_parts q a n r = simp append_assoc refl

module _ (size : ℕ) (p : Packet) (x : Emitted) (is_size : length p.body ≡ size)
    (none_yet : HasNoRecords p) (fit : AllFit x) where
  -- The counts are those of what is read.
  counted : (rs : List Rr) (n : ℕ) → n ≡ 0 → n + length rs ≡ length (map seen rs)
  counted rs n h = omega (arith, length-map rs seen)

  pub read_raised :
      read_message size (wire (raised p x))
      ≡ some (record {
        answers = map seen x.answers;
        authority = map seen x.authority;
        additional = map seen x.additional;
      })
  read_raised =
      let f1 = fit.few_answers in
      let f2 = fit.few_authority in
      let f3 = fit.few_additional in
      read_message-wire (raised p x) size p.body (records_bytes x.answers)
        (records_bytes x.authority) (records_bytes x.additional) _ _ _
        (record { an = omega arith; ns = omega arith; ar = omega arith }) is_size
        (four_parts p.body _ _ _) (counted x.answers p.ancount none_yet.no_answers)
        (counted x.authority p.nscount none_yet.no_authority)
        (counted x.additional p.arcount none_yet.no_additional)
        (records_bytes-seen x.answers fit.answers_fit)
        (records_bytes-seen x.authority fit.authority_fit)
        (records_bytes-seen x.additional fit.additional_fit)

  one_counted : (n m k : ℕ) → n ≡ 0 → m < 65535 → k ≡ m → saturating_add16 (n + m) 1 ≡ k + 1
  one_counted n m k h lt e = ground arith

  read_raised-opt :
      (do_bit : Bool)
      → read_message size (wire (bump additional (push_bytes (opt_record do_bit) (raised p x))))
        ≡ some (record {
          answers = map seen x.answers;
          authority = map seen x.authority;
          additional = map seen x.additional ++ (opt_seen do_bit ∷ []);
        })
  read_raised-opt do_bit =
      let f1 = fit.few_answers in
      let f2 = fit.few_authority in
      let f3 = fit.few_additional in
      read_message-wire (bump additional (push_bytes (opt_record do_bit) (raised p x))) size p.body
        (records_bytes x.answers) (records_bytes x.authority)
        (records_bytes x.additional ++ opt_record do_bit) _ _ _
        (record { an = omega arith; ns = omega arith; ar = omega arith }) is_size
        (ap (λ b. b ++ opt_record do_bit) (four_parts p.body _ _ _) ∙ simp append_assoc refl)
        (counted x.answers p.ancount none_yet.no_answers)
        (counted x.authority p.nscount none_yet.no_authority)
        (one_counted p.arcount (length x.additional) (length (map seen x.additional))
            none_yet.no_additional f3 (length-map x.additional seen)
          ∙ sym (length-append (map seen x.additional) (opt_seen do_bit ∷ [])))
        (records_bytes-seen x.answers fit.answers_fit)
        (records_bytes-seen x.authority fit.authority_fit)
        (records_bytes-Reads x.additional (opt_record do_bit) (opt_seen do_bit ∷ [])
          fit.additional_fit (opt_record-seen do_bit))

  pub read_with_opt :
      (query : Bytes) (do_bit : Bool)
      → read_message size (wire (with_opt query do_bit (raised p x)))
        ≡ some (record {
          answers = map seen x.answers;
          authority = map seen x.authority;
          additional = map seen x.additional ++ opt_of query do_bit;
        })
  read_with_opt query do_bit = elim (Bool-cases (query_has_opt query)) [
    | inl y ↦ rw y (read_raised-opt do_bit)
    | inr n ↦ rw (n, append-nil (map seen x.additional)) read_raised
  ]
