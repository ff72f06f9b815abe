-- ===== src/Response/Layout.antt =====
-- What `finish` writes, as lists of records in three sections, and the OPT record behind them.
use rustyalias.Common.{
  ℕ, ◌≡◌, arith, Bool, false, some, List, Bytes, length, if◌then◌else◌, ltb, ret, >>=-eq,
  Bool-cases, inl, inr,
}
use rustyalias.Wire.{question_section_end}
use rustyalias.Dnssec.Key.{Platform}
use rustyalias.Response.{ZoneParams, Rr, Msg, sign}
use rustyalias.Response.Emit.{emit_section, group_rrs, finish}
use rustyalias.Edns.{query_has_opt, maybe_append_opt, opt_record}
use rustyalias.Response.Packet.{
  answers, authority, additional, bump, Packet, wire, HasCounts, Section, offset_of, push_all,
  push_bytes, bump_count-wire, push_all-HasCounts,
}
use rustyalias.Response.Sections.{section_records, emit_section-wire}

pub ltb_header : (p : Packet) → ltb (length (wire p)) 12 ≡ false
ltb_header p = ground arith

-- What a section adds to a packet.
unfoldable pub lay_out :
    (P : Platform) → Bytes → ℕ → ZoneParams P → Section → List Rr → Packet → Packet
lay_out P query end params s rrs p =
    push_all s p (section_records P query end params s p (group_rrs rrs))

pub lay_out-HasCounts :
    (P : Platform) (query : Bytes) (end : ℕ) (params : ZoneParams P) (s : Section) (rrs : List Rr)
    {p : Packet}
    → HasCounts p
    → HasCounts (lay_out P query end params s rrs p)
unfolding lay_out
lay_out-HasCounts P query end params s rrs {p} h =
    push_all-HasCounts s (section_records P query end params s p (group_rrs rrs)) h

-- A message laid out: its packet after the three sections.
abbrev pub laid_out : (P : Platform) → Bytes → ℕ → ZoneParams P → Msg → Packet → Packet
laid_out P query end params m p = lay_out P query end params additional m.additional (
    lay_out P query end params authority m.authority
      (lay_out P query end params answers m.answers p))

-- The OPT record behind the sections, counted with the additional records.
abbrev pub with_opt : Bytes → Bool → Packet → Packet
with_opt query do_bit p =
    if query_has_opt query then bump additional (push_bytes (opt_record do_bit) p) else p

pub maybe_append_opt-wire :
    (query : Bytes) (do_bit : Bool) (p : Packet)
    → HasCounts p
    → maybe_append_opt (wire p) query do_bit ≡ ret (wire (with_opt query do_bit p))
unfolding maybe_append_opt
maybe_append_opt-wire query do_bit p h = elim (Bool-cases (query_has_opt query)) [
  | inl y ↦ rw (y, ltb_header p, bump_count-wire additional p h)
  | inr n ↦ rw n
]

module _ (P : Platform) (query : Bytes) {end : ℕ} (e : question_section_end query ≡ some end) where
  section :
      (s : Section) (params : ZoneParams P) (rrs : List Rr) (p : Packet)
      → HasCounts p
      → emit_section P (wire p) (offset_of s) rrs query params
        ≡ ret (wire (lay_out P query end params s rrs p))
  unfolding lay_out
  section s params rrs p h = emit_section-wire P query e s params rrs p h

  first :
      (params : ZoneParams P) (m : Msg) (p : Packet)
      → m.buf ≡ wire p
      → HasCounts p
      → emit_section P m.buf (offset_of answers) m.answers query params
        ≡ ret (wire (lay_out P query end params answers m.answers p))
  first params m p b h = rw b (section answers params m.answers p h)

  -- For a query that has a question, and a message that starts as the packet `p` with counts below
  -- 65536, `finish` returns `p` with the records of the three sections behind it in order, each
  -- counted in its section, and then the OPT record if the query had one, counted too.
  pub finish-wire :
      (params : ZoneParams P) (m : Msg) (p : Packet)
      → m.buf ≡ wire p
      → HasCounts p
      → finish P m query params
        ≡ ret (wire (with_opt query (sign P params) (laid_out P query end params m p)))
  unfolding finish
  finish-wire params m p b h =
      let h1 = lay_out-HasCounts P query end params answers m.answers h in
      let h2 = lay_out-HasCounts P query end params authority m.authority h1 in
      let h3 = lay_out-HasCounts P query end params additional m.additional h2 in
      >>=-eq _ (first params m p b h) (
        >>=-eq _ (section authority params m.authority _ h1) (
          >>=-eq _ (section additional params m.additional _ h2)
            (maybe_append_opt-wire query (sign P params) _ h3)))
