-- ===== src/Query/Tests.antt =====
-- Runs of the handler with the settings of the tests in src/dns/query.rs, and the theorems about
-- it at concrete queries.
use rustyalias.Response.Build.{error_response}
use rustyalias.Query.Explicit.{error_text, error_response-text}
use rustyalias.Common.{
  inr, ◌%◌, ℕ, ◌≡◌, refl, arith, true, false, [], ◌∷◌, ◌++◌, Option, none, some, Bytes, codes,
  length, replicate, ret, Returns, ◌↔◌, be16, index, slice, store,
}
use rustyalias.Net.{Ipv4Addr, parse_ipv4, parse_ipv6}
use rustyalias.Text.{
  split, join, to_lower, eq_ignore_case, trim_dots, replace_pairs, replace_hyphens, to_digit,
  parse_u8,
}
use rustyalias.Text.Utf8.{is_utf8}
use rustyalias.IpParser.{
  interpret_ip, parse_label_ipv4, parse_hyphenated_ip, parse_hyphenated_ipv6, parse_hexadecimal_ip,
}
use rustyalias.Wire.{
  rcode_refused, rcode_noerror, response_flags, question_section_end, parse_qtype_qclass, names_eq,
}
use rustyalias.Edns.{
  parse_query_opt, opt_udp_payload_size, query_has_opt, query_dnssec_ok, bump_count,
  maybe_append_opt,
}
use rustyalias.Dnssec.Key.{Platform}
use rustyalias.Response.{with_question, add_rr, add_a, sign}
use rustyalias.Response.Emit.{finish, sort_rdatas}
use rustyalias.Response.Build.{build_address_response}
use rustyalias.Config.{Config}
use rustyalias.Query.{
  is_version_query, opcode, dmarc_owner, is_in_zone, parse_query, zone_params, is_configured_ns,
  handle_query_internal, handle_query,
}
use rustyalias.Query.Handles.{error_bytes}
use rustyalias.Query.Sends.{IsBounded, handle_query-IsBounded}
use rustyalias.Query.Labels.{parse_query-Returns}
use rustyalias.Query.Zone.Suffix.{InZone, is_in_zone_iff}
use rustyalias.Response.Packet.{wire, answers, push}
use rustyalias.Response.Layout.{with_opt}
use rustyalias.Response.Start.{opening, asked}
use rustyalias.Response.Address.{address_record}
use rustyalias.Query.Address.{IsPlain, handle_query_internal-address}
use rustyalias.Query.Authority.{Asks, handle_query_internal-refused}
use rustyalias.Query.Header.{HasHeader, handle_query_internal-HasHeader}

-- A stand-in for the curve, the hash and the clock.
abbrev pub stand_in : Platform
stand_in = record {
  SigningKey = Unit {0};
  sec1_point = λ k. 4 ∷ replicate 64 7;
  sign = λ k m. replicate 64 (length m % 256);
  sha256 = λ m. replicate 32 (length m % 256);
  clock = λ n. some n;
}

abbrev pub test_config : Config stand_in
test_config = record {
  glue_name = codes "nip.nu";
  glue_ip = record { a = 37; b = 27; c = 198; d = 249 };
  glue_ip6 = none;
  soa_name = codes "ns1.addr.se";
  ns_names = codes "ns.addr.se" ∷ codes "ns1.addr.se" ∷ [];
  hostmaster = codes "hostmaster.nip.nu";
  serial = 1;
  refresh = 3600;
  retry = 1800;
  expire = 604800;
  minimum = 3600;
  spf = codes "v=spf1 -all";
  dmarc = codes "v=DMARC1; p=reject;";
  version = codes "1.8.1";
  rate_limit_seconds = 0;
  rate_limit_requests = 0;
  dnssec = none;
}

-- The question `7f000001.nip.nu` of class IN, for the type `qtype`.
abbrev pub question_bytes : ℕ → Bytes
question_bytes qtype =
    8
    ∷ (codes "7f000001"
        ++ (3 ∷ (codes "nip" ++ (2 ∷ (codes "nu" ++ (0 ∷ (be16 qtype ++ be16 1)))))))

abbrev pub test_query : ℕ → Bytes
test_query qtype = 0x12 ∷ 0x34 ∷ 1 ∷ 0 ∷ 0 ∷ 1 ∷ 0 ∷ 0 ∷ 0 ∷ 0 ∷ 0 ∷ 0 ∷ question_bytes qtype

-- One A record, authoritative, with a pointer to the name.
hex_name :
    handle_query_internal stand_in (test_query 1) test_config
    ≡ ret (
        0x12
        ∷ 0x34
        ∷ 0x85
        ∷ 0
        ∷ 0
        ∷ 1
        ∷ 0
        ∷ 1
        ∷ 0
        ∷ 0
        ∷ 0
        ∷ 0
        ∷ (question_bytes 1
            ++ (0xc0 ∷ 0x0c ∷ 0 ∷ 1 ∷ 0 ∷ 1 ∷ 0 ∷ 0 ∷ 0 ∷ 60 ∷ 0 ∷ 4 ∷ 127 ∷ 0 ∷ 0 ∷ 1 ∷ [])))
unfolding handle_query_internal opcode parse_query is_utf8 parse_qtype_qclass question_section_end
    is_in_zone trim_dots eq_ignore_case to_lower is_version_query names_eq dmarc_owner zone_params
    query_dnssec_ok parse_query_opt is_configured_ns interpret_ip split parse_label_ipv4
    parse_hexadecimal_ip parse_u8 to_digit parse_hyphenated_ip parse_hyphenated_ipv6 parse_ipv4
    parse_ipv6 join replace_pairs replace_hyphens build_address_response with_question
    response_flags add_a add_rr finish sort_rdatas bump_count maybe_append_opt query_has_opt
    opt_udp_payload_size sign index slice store
hex_name = refl

error_response-text_example : error_response (test_query 28) 5 ≡ ret (error_text (test_query 28) 5)
error_response-text_example =
    error_response-text (test_query 28) (omega arith) 5 (inr refl) (omega arith)

handle_query-IsBounded_example :
    (o : Option Bytes) × (handle_query stand_in (test_query 255) test_config ≡ ret o)
    × IsBounded (test_query 255) o
handle_query-IsBounded_example = handle_query-IsBounded stand_in (test_query 255) test_config

handle_query_internal-HasHeader_example :
    (r : Bytes) × (handle_query_internal stand_in (test_query 1) test_config ≡ ret r)
    × HasHeader (test_query 1) r
handle_query_internal-HasHeader_example =
    handle_query_internal-HasHeader (test_query 1) (omega arith) stand_in test_config

parse_query-Returns_example : Returns (parse_query (test_query 1))
parse_query-Returns_example = parse_query-Returns (test_query 1)

is_in_zone_iff_example :
    (is_in_zone (codes "a.b.NIP.nu.") (codes "nip.nu") ≡ ret true)
    ↔ InZone (trim_dots (codes "a.b.NIP.nu.")) (trim_dots (codes "nip.nu"))
is_in_zone_iff_example = is_in_zone_iff (codes "a.b.NIP.nu.") (codes "nip.nu")

-- The name that `test_query` asks for, and a query for it against two zones.
abbrev pub test_name : Bytes
test_name = codes "7f000001.nip.nu"

test_query-Asks : Asks (test_query 1) test_name 33
unfolding opcode question_section_end parse_query is_utf8 index slice
test_query-Asks = record { standard = refl; ends = refl; named = refl; internet = refl }

pub test_name_inside : InZone (trim_dots test_name) (trim_dots (codes "nip.nu"))
unfolding is_in_zone trim_dots eq_ignore_case to_lower index slice
test_name_inside = (is_in_zone_iff test_name (codes "nip.nu")).0 refl

abbrev other_config : Config stand_in
other_config = record test_config { glue_name = codes "addr.se" }

test_name_outside : ¬ InZone (trim_dots test_name) (trim_dots (codes "addr.se"))
unfolding is_in_zone trim_dots eq_ignore_case to_lower index slice
test_name_outside w = cc ((is_in_zone_iff test_name (codes "addr.se")).1 w)

test_name_unversioned : is_version_query test_name ≡ false
unfolding is_version_query eq_ignore_case to_lower
test_name_unversioned = refl

test_name_refused :
    handle_query_internal stand_in (test_query 1) other_config
    ≡ ret (error_bytes (test_query 1) rcode_refused)
test_name_refused =
    handle_query_internal-refused stand_in (test_query 1) other_config test_name test_query-Asks
      test_name_outside test_name_unversioned

test_name-IsPlain : IsPlain stand_in test_config test_name
unfolding is_version_query names_eq eq_ignore_case to_lower trim_dots dmarc_owner is_configured_ns
test_name-IsPlain = record { no_version = refl; no_dmarc = refl; no_apex = refl; no_ns = refl }

abbrev localhost : Ipv4Addr
localhost = record { a = 127; b = 0; c = 0; d = 1 }

interpret_ip-test_name : interpret_ip test_name ≡ some (some localhost, none)
unfolding interpret_ip split parse_label_ipv4 parse_hexadecimal_ip parse_u8 to_digit
    parse_hyphenated_ip parse_hyphenated_ipv6 parse_ipv4 parse_ipv6 join replace_pairs
    replace_hyphens
interpret_ip-test_name = refl

test_unsigned :
    sign stand_in (zone_params stand_in test_config (query_dnssec_ok (test_query 1))) ≡ false
unfolding sign zone_params
test_unsigned = refl

handle_query_internal-address_example :
    handle_query_internal stand_in (test_query 1) test_config
    ≡ ret (
        wire (
          with_opt (test_query 1) false (
            push answers
              (opening (test_query 1) true rcode_noerror (asked (test_query 1) 33))
              (address_record localhost))))
handle_query_internal-address_example =
    handle_query_internal-address stand_in (test_query 1) test_config test_name test_query-Asks
      test_name-IsPlain localhost none test_name_inside refl test_unsigned interpret_ip-test_name
