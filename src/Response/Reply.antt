-- ===== src/Response/Reply.antt =====
-- The shape of a response: its header counts the records that stand behind the question.
use rustyalias.Common.{
  ℕ, suc, ◌+◌, ◌<◌, ◌≡◌, ap, ◌∙◌, arith, min, Bool, List, [], ◌∷◌, ◌++◌, append-nil, append_assoc,
  Bytes, length,
}
use rustyalias.Dnssec.Key.{Platform}
use rustyalias.Response.{ZoneParams, Rr, Msg, sign}
use rustyalias.Response.Emit.{group_rrs}
use rustyalias.Response.Packet.{
  Packet, wire, HasCounts, Section, answers, authority, additional, push, push_all, bytes_of,
}
use rustyalias.Response.Sections.{section_records}
use rustyalias.Response.Layout.{lay_out, lay_out-HasCounts, laid_out, with_opt}

abbrev pub records_bytes : List Rr → Bytes
records_bytes [] = []
records_bytes (r ∷ rs) = bytes_of r ++ records_bytes rs

-- Records added to a section, all at once.
abbrev pub added : Section → List Rr → Packet → Packet
added answers rs p = record p {
  ancount = min 65535 (p.ancount + length rs);
  body = p.body ++ records_bytes rs;
}
added authority rs p = record p {
  nscount = min 65535 (p.nscount + length rs);
  body = p.body ++ records_bytes rs;
}
added additional rs p = record p {
  arcount = min 65535 (p.arcount + length rs);
  body = p.body ++ records_bytes rs;
}

count_step : (n k : ℕ) → min 65535 (min 65535 (n + 1) + k) ≡ min 65535 (n + suc k)
count_step n k = omega arith

count_none : (n : ℕ) → n < 65536 → min 65535 (n + 0) ≡ n
count_none n h = omega arith

pub push_all-added :
    (s : Section) (rs : List Rr) (p : Packet) → HasCounts p → push_all s p rs ≡ added s rs p
push_all-added answers [] p h = rw (count_none p.ancount h.an, append-nil)
push_all-added authority [] p h = rw (count_none p.nscount h.ns, append-nil)
push_all-added additional [] p h = rw (count_none p.arcount h.ar, append-nil)
push_all-added answers (r ∷ rs) p h =
    push_all-added answers rs (push answers p r) (omega arith)
    ∙ rw (count_step p.ancount (length rs), append_assoc)
push_all-added authority (r ∷ rs) p h =
    push_all-added authority rs (push authority p r) (omega arith)
    ∙ rw (count_step p.nscount (length rs), append_assoc)
push_all-added additional (r ∷ rs) p h =
    push_all-added additional rs (push additional p r) (omega arith)
    ∙ rw (count_step p.arcount (length rs), append_assoc)

-- The response that has exactly these records in its sections, and the OPT record if it has one.
abbrev pub reply_packet : Bytes → Bool → Packet → List Rr → List Rr → List Rr → Packet
reply_packet query do_bit p an ns ar =
    with_opt query do_bit (added additional ar (added authority ns (added answers an p)))

-- `r` is such a response.
abbrev pub IsReply : Bytes → Bool → Packet → Bytes → Type 0
IsReply query do_bit p r =
    (an : List Rr) × (ns : List Rr) × (ar : List Rr) × (r
      ≡ wire (reply_packet query do_bit p an ns ar))

pub laid_out-IsReply :
    (P : Platform) (query : Bytes) (end : ℕ) (params : ZoneParams P) (m : Msg) (p : Packet)
    → HasCounts p
    → IsReply query
        (sign P params)
        p
        (wire (with_opt query (sign P params) (laid_out P query end params m p)))
unfolding lay_out
laid_out-IsReply P query end params m p h =
    let recs = section_records P query end params in
    let an = recs answers p (group_rrs m.answers) in
    let p1 = lay_out P query end params answers m.answers p in
    let h1 = lay_out-HasCounts P query end params answers m.answers h in
    let ns = recs authority p1 (group_rrs m.authority) in
    let p2 = lay_out P query end params authority m.authority p1 in
    let h2 = lay_out-HasCounts P query end params authority m.authority h1 in
    let ar = recs additional p2 (group_rrs m.additional) in
    (
      an,
      ns,
      ar,
      ap (λ q. wire (with_opt query (sign P params) q))
          (push_all-added additional ar p2 h2
            ∙ ap (added additional ar) (
                push_all-added authority ns p1 h1
                ∙ ap (added authority ns) (push_all-added answers an p h))),
    )
