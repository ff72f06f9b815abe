-- ===== src/Query/Lookups.antt =====
-- The theorems about lookups, at the name `7f000001.nip.nu`.
use rustyalias.Common.{
  codes, ◌<◌, length, arith, ◌-◌, ◌≡◌, ◌≢◌, refl, true, false, ◌&&◌, [], ◌∷◌, ◌++◌, some, Bytes,
  replicate, ret, ◌==◌, index, slice,
}
use rustyalias.Text.{
  split, join, to_lower, eq_ignore_case, trim_dots, replace_pairs, replace_hyphens, to_digit,
  parse_u8,
}
use rustyalias.Text.Utf8.{is_utf8}
use rustyalias.Net.{parse_ipv4, parse_ipv6}
use rustyalias.IpParser.{
  interpret_ip, parse_label_ipv4, parse_hyphenated_ip, parse_hyphenated_ipv6, parse_hexadecimal_ip,
}
use rustyalias.Dnssec.Tests.{stand_in-IsPlatform}
use rustyalias.Query.Outside.{OutsideAnswer, handle_query_internal-outside}
use rustyalias.Query.Zone.Suffix.{InZone, is_in_zone_iff}
use rustyalias.Wire.{encode_domain_name, question_section_end, names_eq, type_nsec}
use rustyalias.Wire.Question.{question_at}
use rustyalias.Edns.{parse_query_opt, query_dnssec_ok}
use rustyalias.Response.{ZoneParams, sign}
use rustyalias.Response.Contents.{matching, lookup, response}
use rustyalias.Response.Read.Whole.{read_message}
use rustyalias.Response.Read.Finish.{reading_of}
use rustyalias.Query.Datagram.{Arrives, handle_query-read}
use rustyalias.Query.{handle_query}
use rustyalias.Query.Reads.{SectionsFit, emitted_of, looked_up, handle_query_internal-read}
use rustyalias.Config.{Config}
use rustyalias.Query.{
  is_version_query, opcode, is_in_zone, dmarc_owner, parse_query, zone_params, is_configured_ns,
  handle_query_internal,
}
use rustyalias.Query.Authority.{Asks}
use rustyalias.Query.Node.{node}
use rustyalias.Query.Refines.{handle_query_internal-lookup}
use rustyalias.Query.Denies.{denied, IsBitmap, handle_query_internal-denies}
use rustyalias.Query.Tests.{
  stand_in, test_config, question_bytes, test_query, test_name, test_name_inside,
}

some_servers : test_config.ns_names ≢ []
some_servers e = cc e

any_query-Asks : Asks (test_query 255) test_name 33
unfolding opcode question_section_end parse_query is_utf8 index slice
any_query-Asks = record { standard = refl; ends = refl; named = refl; internet = refl }

abbrev open_params : ZoneParams stand_in
open_params = zone_params stand_in test_config (query_dnssec_ok (test_query 255))

handle_query_internal-lookup_example :
    handle_query_internal stand_in (test_query 255) test_config
    ≡ ret (
        response stand_in open_params (test_query 255) 33 (
          lookup stand_in open_params
            (test_query 255)
            33
            (node stand_in test_config open_params test_name)
            (question_at (test_query 255) 33).0))
handle_query_internal-lookup_example =
    handle_query_internal-lookup stand_in (test_query 255) test_config test_name any_query-Asks
      test_name_inside some_servers

-- A zone with a key, and a question of type TXT from a client that wants signatures.
abbrev signed_config : Config stand_in
signed_config = record test_config {
  dnssec = some (record { key_tag = 4660; dnskey_rdata = replicate 68 7; signing_key = tt });
}

abbrev secure_query : Bytes
secure_query =
    0x12
    ∷ 0x34
    ∷ 1
    ∷ 0
    ∷ 0
    ∷ 1
    ∷ 0
    ∷ 0
    ∷ 0
    ∷ 0
    ∷ 0
    ∷ 1
    ∷ (question_bytes 16 ++ (0 ∷ 0 ∷ 41 ∷ 4 ∷ 208 ∷ 0 ∷ 0 ∷ 0x80 ∷ 0 ∷ 0 ∷ 0 ∷ []))

secure_query-Asks : Asks secure_query test_name 33
unfolding opcode question_section_end parse_query is_utf8 index slice
secure_query-Asks = record { standard = refl; ends = refl; named = refl; internet = refl }

abbrev secure_params : ZoneParams stand_in
secure_params = zone_params stand_in signed_config (query_dnssec_ok secure_query)

secure_query-signed : sign stand_in secure_params ≡ true
unfolding sign zone_params query_dnssec_ok parse_query_opt question_section_end index slice
secure_query-signed = refl

not_apex :
    (node stand_in signed_config secure_params test_name).apex
      && (question_at secure_query 33).0 == type_nsec
    ≡ false
unfolding node is_version_query names_eq eq_ignore_case to_lower trim_dots dmarc_owner
    is_configured_ns
not_apex = refl

no_text :
    matching
      (question_at secure_query 33).0
      (node stand_in signed_config secure_params test_name).records
    ≡ []
unfolding node matching is_version_query names_eq eq_ignore_case to_lower trim_dots dmarc_owner
    is_configured_ns interpret_ip split parse_label_ipv4 parse_hexadecimal_ip parse_u8 to_digit
    parse_hyphenated_ip parse_hyphenated_ipv6 parse_ipv4 parse_ipv6 join replace_pairs
    replace_hyphens
no_text = refl

handle_query_internal-denies_example :
    (out : Bytes) × (handle_query_internal stand_in secure_query signed_config
      ≡ ret (
          response stand_in secure_params secure_query 33
            (denied stand_in secure_params secure_query 33 out)))
    × IsBitmap (node stand_in signed_config secure_params test_name).records out
handle_query_internal-denies_example =
    handle_query_internal-denies stand_in secure_query signed_config test_name secure_query-Asks
      test_name_inside some_servers secure_query-signed not_apex no_text

test_query-Asks : Asks (test_query 1) test_name 33
unfolding opcode question_section_end parse_query is_utf8 index slice
test_query-Asks = record { standard = refl; ends = refl; named = refl; internet = refl }

one_address-SectionsFit : SectionsFit (looked_up stand_in test_config (test_query 1) test_name 33)
unfolding node matching is_version_query names_eq eq_ignore_case to_lower trim_dots dmarc_owner
    is_configured_ns interpret_ip split parse_label_ipv4 parse_hexadecimal_ip parse_u8 to_digit
    parse_hyphenated_ip parse_hyphenated_ipv6 parse_ipv4 parse_ipv6 join replace_pairs
    replace_hyphens
one_address-SectionsFit = record {
  answers_fit = (
    record {
      owner_fits = tt;
      typ_fits = omega arith;
      ttl_fits = omega arith;
      rdata_fits = omega arith;
    },
    tt,
  );
  authority_fit = tt;
  additional_fit = tt;
  few_answers = omega arith;
  few_authority = omega arith;
  few_additional = omega arith;
}

short_zone : length (encode_domain_name (codes "nip.nu")) < 65000
unfolding encode_domain_name split trim_dots
short_zone = omega arith

handle_query_internal-read_example :
    (out : Bytes) × (handle_query_internal stand_in (test_query 1) test_config ≡ ret out)
    × (read_message (33 - 12) out
        ≡ some (
            reading_of stand_in
              (test_query 1)
              (zone_params stand_in test_config (query_dnssec_ok (test_query 1)))
              (emitted_of stand_in
                (zone_params stand_in test_config (query_dnssec_ok (test_query 1)))
                (test_query 1)
                33
                (looked_up stand_in test_config (test_query 1) test_name 33))))
handle_query_internal-read_example =
    handle_query_internal-read stand_in stand_in-IsPlatform (test_query 1) test_config test_name
      test_query-Asks test_name_inside some_servers short_zone one_address-SectionsFit

handle_query-read_example :
    (answer : Bytes) × (sent : Bytes) × (handle_query stand_in (test_query 1) test_config
      ≡ ret (some sent))
    × (read_message (33 - 12) answer
        ≡ some (
            reading_of stand_in
              (test_query 1)
              (zone_params stand_in test_config (query_dnssec_ok (test_query 1)))
              (emitted_of stand_in
                (zone_params stand_in test_config (query_dnssec_ok (test_query 1)))
                (test_query 1)
                33
                (looked_up stand_in test_config (test_query 1) test_name 33))))
    × Arrives (test_query 1) 33 answer sent
handle_query-read_example =
    handle_query-read stand_in stand_in-IsPlatform (test_query 1) test_config test_name
      test_query-Asks test_name_inside some_servers short_zone one_address-SectionsFit

-- The question `version` of type TXT, outside the zone.
abbrev version_query : Bytes
version_query =
    0x12
    ∷ 0x34
    ∷ 1
    ∷ 0
    ∷ 0
    ∷ 1
    ∷ 0
    ∷ 0
    ∷ 0
    ∷ 0
    ∷ 0
    ∷ 0
    ∷ 7
    ∷ (codes "version" ++ (0 ∷ 0 ∷ 16 ∷ 0 ∷ 1 ∷ []))

version_query-Asks : Asks version_query (codes "version") 25
unfolding opcode question_section_end parse_query is_utf8 index slice
version_query-Asks = record { standard = refl; ends = refl; named = refl; internet = refl }

version_outside : ¬ InZone (trim_dots (codes "version")) (trim_dots (codes "nip.nu"))
unfolding is_in_zone trim_dots eq_ignore_case to_lower index slice
version_outside w = cc ((is_in_zone_iff (codes "version") (codes "nip.nu")).1 w)

handle_query_internal-outside_example :
    (r : Bytes) × (handle_query_internal stand_in version_query test_config ≡ ret r)
    × OutsideAnswer stand_in version_query test_config (codes "version") version_query-Asks r
handle_query_internal-outside_example =
    handle_query_internal-outside stand_in version_query test_config (codes "version")
      version_query-Asks (omega arith) version_outside
