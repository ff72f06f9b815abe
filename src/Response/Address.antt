-- ===== src/Response/Address.antt =====
-- The one record of an unsigned answer with an IPv4 address.
use rustyalias.Common.{
  ℕ, ◌≡◌, refl, ◌∙◌, arith, true, false, Option, none, some, Bytes, keep_if, ret,
}
use rustyalias.Net.{Ipv4Addr, Ipv6Addr, octets}
use rustyalias.Wire.{question_section_end, rcode_noerror, type_a, ttl_rr}
use rustyalias.Dnssec.Key.{Platform}
use rustyalias.Response.{ZoneParams, Rr, question, sign, add_a, add_rr}
use rustyalias.Response.Emit.{group_rrs, group_from, sort_rdatas, insert_rdata}
use rustyalias.Response.Build.{build_address_response}
use rustyalias.Response.Packet.{Packet, wire, answers, push}
use rustyalias.Response.Sections.{section_records}
use rustyalias.Response.Layout.{lay_out, with_opt, finish-wire}
use rustyalias.Response.Start.{opening, asked, opened, opening-HasCounts, with_question-opening}

-- The A record of the question's owner.
abbrev pub address_record : Ipv4Addr → Rr
address_record ip = record { owner = question; typ = type_a; ttl = ttl_rr; rdata = octets ip }

unsigned_key :
    (P : Platform) (params : ZoneParams P)
    → sign P params ≡ false
    → keep_if params.do_bit params.dnssec ≡ none
unfolding sign
unsigned_key P params h = ground arith

module _ (P : Platform) (query : Bytes) {end : ℕ} (e : question_section_end query ≡ some end)
    (params : ZoneParams P) (unsigned : sign P params ≡ false) where
  abbrev start : Packet
  start = opening query true rcode_noerror (asked query end)

  -- Without a signature, an address response to a question of type A for a name with an IPv4
  -- address holds just the A record of that address, counted as the one answer, and the OPT record
  -- if the query had one.
  pub build_address_response-one :
      (ip : Ipv4Addr) (v6 : Option Ipv6Addr)
      → build_address_response P query type_a (some ip, v6) params
        ≡ ret (
            wire (
              with_opt query false (
                push answers
                  (opening query true rcode_noerror (asked query end))
                  (address_record ip))))
  unfolding build_address_response add_a add_rr lay_out section_records group_rrs group_from
      sort_rdatas insert_rdata
  build_address_response-one ip v6 = rw (with_question-opening query true rcode_noerror e) (
      finish-wire P query e params (add_a (opened start) 6 question ip) start refl
        (opening-HasCounts query true rcode_noerror (asked query end))
      ∙ rw (unsigned, unsigned_key P params unsigned))
