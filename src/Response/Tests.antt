-- ===== src/Response/Tests.antt =====
-- The theorems about src/dns/response.rs and src/dns/dnssec.rs at concrete messages.
use rustyalias.Common.{
  All, List, ◌≤◌, ◌<◌, ◌≡◌, refl, arith, max, true, false, [], ◌∷◌, none, some, Bytes, length,
  replicate, ret,
}
use rustyalias.Wire.{question_section_end, offset_ancount}
use rustyalias.Edns.{
  udp_response_limit, bump_count, maybe_truncate_udp, opt_udp_payload_size, parse_query_opt,
}
use rustyalias.Response.{Rr, Msg, sign, add_a, add_rr, question}
use rustyalias.Response.Emit.{finish, group_rrs}
use rustyalias.Response.Build.{build_address_response}
use rustyalias.Response.Packet.{Packet, wire, bump, answers, offset_of, bump_count-wire}
use rustyalias.Response.Layout.{laid_out, with_opt, finish-wire}
use rustyalias.Response.Start.{opening, opened, opening-HasCounts, asked}
use rustyalias.Response.Truncate.{truncated, maybe_truncate_udp-cut, maybe_truncate_udp-length}
use rustyalias.Response.Replies.{Replies, build_address_response-Replies}
use rustyalias.Response.Order.{members, IsUniform, AreParted, group_rrs-members}
use rustyalias.Query.{zone_params}
use rustyalias.Query.Tests.{stand_in, test_config, test_query}

abbrev query : Bytes
query = test_query 255

query_end : question_section_end query ≡ some 33
unfolding question_section_end
query_end = refl

query_limit : udp_response_limit query ≡ 512
unfolding udp_response_limit opt_udp_payload_size parse_query_opt
query_limit = refl

abbrev long_response : Bytes
long_response = replicate 600 0x85

long_response_over : udp_response_limit query < length long_response
long_response_over = rw query_limit (omega arith)

maybe_truncate_udp-cut_example :
    maybe_truncate_udp long_response query ≡ ret (truncated long_response query query_end)
maybe_truncate_udp-cut_example =
    maybe_truncate_udp-cut long_response query query_end long_response_over

maybe_truncate_udp-length_example :
    (r : Bytes) × (maybe_truncate_udp long_response query ≡ ret r)
    × (length r ≤ max (udp_response_limit query) 33)
maybe_truncate_udp-length_example = maybe_truncate_udp-length long_response query query_end

abbrev start : Packet
start = opening query true 0 (asked query 33)

answer_counted : bump_count (wire start) (offset_of answers) ≡ ret (wire (bump answers start))
answer_counted = bump_count-wire answers start (opening-HasCounts query true 0 (asked query 33))

abbrev one_address : Msg
one_address = add_a (opened start) offset_ancount question (record { a = 1; b = 2; c = 3; d = 4 })

one_address_buf : one_address.buf ≡ wire start
unfolding add_a add_rr
one_address_buf = refl

one_address-wire :
    finish stand_in one_address query (zone_params stand_in test_config false)
    ≡ ret (
        wire (
          with_opt query (sign stand_in (zone_params stand_in test_config false)) (
            laid_out stand_in query 33 (zone_params stand_in test_config false) one_address start)))
one_address-wire =
    finish-wire stand_in query query_end (zone_params stand_in test_config false) one_address start
      one_address_buf (opening-HasCounts query true 0 (asked query 33))

two_addresses_replied : Replies stand_in query 33 (zone_params stand_in test_config true) (
    build_address_response stand_in query 255
      (some (record { a = 1; b = 2; c = 3; d = 4 }), none)
      (zone_params stand_in test_config true))
two_addresses_replied =
    build_address_response-Replies stand_in query query_end (zone_params stand_in test_config true)
      255 (some (record { a = 1; b = 2; c = 3; d = 4 }), none)

-- Two NS records and an A record, all of the question's owner.
abbrev three_records : List Rr
three_records =
    record { owner = question; typ = 2; ttl = 60; rdata = 1 ∷ [] }
    ∷ record { owner = question; typ = 2; ttl = 60; rdata = 2 ∷ [] }
    ∷ record { owner = question; typ = 1; ttl = 60; rdata = 3 ∷ [] }
    ∷ []

group_rrs-members_example :
    (members (group_rrs three_records) ≡ three_records)
    × All IsUniform (group_rrs three_records)
    × AreParted (group_rrs three_records)
group_rrs-members_example = group_rrs-members three_records
