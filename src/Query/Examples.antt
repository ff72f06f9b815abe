-- ===== src/Query/Examples.antt =====
-- The theorems about queries as a client writes them, at the address 127.0.0.1 in the zone `nip.nu`.
use rustyalias.Common.{
  inr, true, some, ◌≡◌, refl, arith, false, [], ◌∷◌, Bytes, codes, All, IsByte, ret,
}
use rustyalias.Text.{split, trim_dots, eq_ignore_case, to_lower}
use rustyalias.Text.Case.{lower}
use rustyalias.Net.{Ipv4Addr, octets}
use rustyalias.IpParser.Hyphens.{joined}
use rustyalias.Wire.{rcode_noerror, type_aaaa, class_in, names_eq, parse_qtype_qclass}
use rustyalias.Edns.{query_dnssec_ok}
use rustyalias.Response.{sign}
use rustyalias.Response.Packet.{wire, answers, push}
use rustyalias.Response.Layout.{with_opt}
use rustyalias.Response.Start.{opening, asked}
use rustyalias.Response.Address.{address_record}
use rustyalias.Query.{
  is_version_query, dmarc_owner, is_configured_ns, opcode, parse_query, zone_params,
  handle_query_internal,
}
use rustyalias.Query.Tests.{stand_in, test_config}
use rustyalias.Query.Address.{IsPlain}
use rustyalias.Query.RoundTrip.{IsLabel, IsName}
use rustyalias.Query.Encoded.{client_query, parse_query-client_query}
use rustyalias.Query.Served.{
  label_name, label_query, label_query_end, handle_query_internal-label_name,
}

abbrev localhost : Ipv4Addr
localhost = record { a = 127; b = 0; c = 0; d = 1 }

localhost-bytes : All IsByte (octets localhost)
localhost-bytes = (omega arith, (omega arith, (omega arith, (omega arith, tt))))

-- `127-0-0-1`.
abbrev localhost_label : Bytes
localhost_label = joined b'-' localhost

-- A header with RD set and one question.
abbrev header : Bytes
header = 0x12 ∷ 0x34 ∷ 1 ∷ 0 ∷ 0 ∷ 1 ∷ 0 ∷ 0 ∷ 0 ∷ 0 ∷ 0 ∷ 0 ∷ []

nip-IsLabel : IsLabel (codes "nip")
nip-IsLabel = record {
  not_empty = omega arith;
  at_most_63 = omega arith;
  are_ascii =
      ((omega arith, omega arith), ((omega arith, omega arith), ((omega arith, omega arith), tt)));
}

nu-IsLabel : IsLabel (codes "nu")
nu-IsLabel = record {
  not_empty = omega arith;
  at_most_63 = omega arith;
  are_ascii = ((omega arith, omega arith), ((omega arith, omega arith), tt));
}

zone-IsName : IsName (trim_dots (codes "nip.nu"))
unfolding split trim_dots
zone-IsName = (nip-IsLabel, (nu-IsLabel, tt))

parse_query-client_query_example :
    (parse_query (client_query header (codes "nip.nu") type_aaaa class_in [])
      ≡ ret (some (lower (trim_dots (codes "nip.nu")))))
    × (parse_qtype_qclass (client_query header (codes "nip.nu") type_aaaa class_in [])
        ≡ ret (some (type_aaaa, class_in)))
parse_query-client_query_example =
    parse_query-client_query header (codes "nip.nu") [] type_aaaa class_in refl zone-IsName
      (omega arith) (omega arith) refl

label_name-IsPlain :
    IsPlain stand_in test_config (lower (label_name localhost_label (codes "nip.nu")))
unfolding is_version_query names_eq eq_ignore_case to_lower trim_dots dmarc_owner is_configured_ns
label_name-IsPlain = record { no_version = refl; no_dmarc = refl; no_apex = refl; no_ns = refl }

header-standard : opcode header ≡ 0
unfolding opcode
header-standard = refl

abbrev localhost_query : Bytes
localhost_query = label_query header localhost_label (codes "nip.nu") []

localhost_query-unsigned :
    sign stand_in (zone_params stand_in test_config (query_dnssec_ok localhost_query)) ≡ false
unfolding sign zone_params
localhost_query-unsigned = refl

handle_query_internal-label_name_example :
    handle_query_internal stand_in localhost_query test_config
    ≡ ret (
        wire (
          with_opt localhost_query false (
            push answers
              (opening localhost_query true rcode_noerror
                (asked localhost_query (label_query_end localhost_label (codes "nip.nu"))))
              (address_record localhost))))
handle_query_internal-label_name_example =
    handle_query_internal-label_name stand_in test_config header [] localhost localhost_label refl
      localhost-bytes (inr refl) zone-IsName header-standard refl label_name-IsPlain
      localhost_query-unsigned
