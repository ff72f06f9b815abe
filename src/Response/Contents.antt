-- ===== src/Response/Contents.antt =====
-- What a response of src/dns/response.rs holds, told as a lookup in a zone: the records at a name,
-- those that match the type of the question, and what stands beside them.
pub mod Adds
pub mod Matching
pub mod Denial
pub mod Hosts
pub mod Apex
pub mod Arms
pub mod Every
use rustyalias.Common.{
  ℕ, ◌+◌, ◌-◌, ◌%◌, Bool, true, false, ◌&&◌, ◌||◌, List, [], ◌∷◌, ◌++◌, map, Option, none, some,
  Bytes, ◌==◌, if◌then◌else◌, is_some, is_none, is_empty, length, take, drop, min, ltb, Outcome,
  ret, panic, Returns,
}
use rustyalias.Text.{eq_ignore_case, trim_dots}
use rustyalias.Net.{Ipv4Addr, Ipv6Addr, octets, octets6}
use rustyalias.IpParser.{Addresses}
use rustyalias.Wire.{
  type_a, type_ns, type_soa, type_txt, type_aaaa, type_nsec, type_dnskey, type_cds, type_cdnskey,
  type_any, ttl_soa, ttl_rr, rcode_noerror, encode_domain_name,
}
use rustyalias.Wire.Zones.{ends_in_zone}
use rustyalias.Dnssec.Bitmap.{dedup, nsec_types, nsec_rdata}
use rustyalias.Dnssec.Key.{Platform, DnssecKey, ds_rdata}
use rustyalias.Response.{ZoneParams, Owner, question, name, Rr, Msg, sign, soa_rdata}
use rustyalias.Response.Packet.{wire}
use rustyalias.Response.Layout.{laid_out, with_opt}
use rustyalias.Response.Start.{opening, asked}

-- The three sections of a response.
pub record Sections : Type 0 where
  pub answers : List Rr
  pub authority : List Rr
  pub additional : List Rr

-- A name of the zone: its records, and whether it is the apex.
pub record Node : Type 0 where
  pub records : List Rr
  pub apex : Bool

-- A record of the name that the question asks for.
abbrev pub own : ℕ → ℕ → Bytes → Rr
own typ ttl rdata = record { owner = question; typ = typ; ttl = ttl; rdata = rdata }

-- One character string, of 255 bytes at most.
abbrev pub text_record : Bytes → Rr
text_record txt = own type_txt ttl_rr (min (length txt) 255 % 256 ∷ take (min (length txt) 255) txt)

abbrev pub a_records : Option Ipv4Addr → List Rr
a_records none = []
a_records (some ip) = own type_a ttl_rr (octets ip) ∷ []

abbrev pub aaaa_records : Option Ipv6Addr → List Rr
aaaa_records none = []
aaaa_records (some ip) = own type_aaaa ttl_rr (octets6 ip) ∷ []

abbrev pub text_records : Option Bytes → List Rr
text_records none = []
text_records (some txt) = text_record txt ∷ []

abbrev pub host_records : Addresses → List Rr
host_records (v4, v6) = a_records v4 ++ aaaa_records v6

abbrev pub ns_records : List Bytes → List Rr
ns_records [] = []
ns_records (n ∷ ns) = own type_ns ttl_rr (encode_domain_name n) ∷ ns_records ns

-- The records that a question of the type asks for.
unfoldable pub matching : ℕ → List Rr → List Rr
matching qtype [] = []
matching qtype (r ∷ rs) =
    if qtype == r.typ || qtype == type_any then r ∷ matching qtype rs else matching qtype rs

-- The types of some records, each once where equal ones are neighbours.
abbrev pub types_of : List Rr → List ℕ
types_of rs = dedup (map (λ r. r.typ) rs)

-- A name server stands in the zone.
abbrev pub in_bailiwick : Bytes → Bytes → Bool
in_bailiwick n zone =
    if eq_ignore_case (trim_dots n) (trim_dots zone)
    then true
    else if ltb (length (trim_dots zone) + 1) (length (trim_dots n))
    then ends_in_zone (trim_dots n) (trim_dots zone)
    else false

abbrev or_empty : Outcome Bytes → Bytes
or_empty (ret b) = b
or_empty panic = []

module _ (P : Platform) (params : ZoneParams P) where
  abbrev pub soa : Owner → Rr
  soa o = record { owner = o; typ = type_soa; ttl = ttl_soa; rdata = soa_rdata P params }

  abbrev pub dnskey_records : Option (DnssecKey P) → List Rr
  dnskey_records none = []
  dnskey_records (some key) = own type_dnskey ttl_soa key.dnskey_rdata ∷ []

  abbrev pub cds_records : Option (DnssecKey P) → List Rr
  cds_records none = []
  cds_records (some key) = own type_cds ttl_soa (ds_rdata P key params.zone) ∷ []

  abbrev pub cdnskey_records : Option (DnssecKey P) → List Rr
  cdnskey_records none = []
  cdnskey_records (some key) = own type_cdnskey ttl_soa key.dnskey_rdata ∷ []

  abbrev pub key_records : Option (DnssecKey P) → List Rr
  key_records key = dnskey_records key ++ (cds_records key ++ cdnskey_records key)

  abbrev pub apex_records : List Rr
  apex_records =
      (soa question ∷ [])
      ++ (ns_records params.ns_names
          ++ (a_records (some params.glue_ip)
              ++ (aaaa_records params.glue_ip6
                  ++ (text_records params.spf ++ key_records params.dnssec))))

  -- The addresses of the name servers that stand in the zone.
  abbrev pub glue_of : Bytes → Option Ipv6Addr → List Rr
  glue_of n none =
      record { owner = name n; typ = type_a; ttl = ttl_rr; rdata = octets params.glue_ip } ∷ []
  glue_of n (some ip6) =
      record { owner = name n; typ = type_a; ttl = ttl_rr; rdata = octets params.glue_ip }
      ∷ record { owner = name n; typ = type_aaaa; ttl = ttl_rr; rdata = octets6 ip6 }
      ∷ []

  unfoldable pub glue_records : List Bytes → List Rr
  glue_records [] = []
  glue_records (n ∷ ns) =
      (if in_bailiwick n params.zone then glue_of n params.glue_ip6 else []) ++ glue_records ns

  module _ (query : Bytes) (end : ℕ) where
    -- The NSEC record of the name, which lists the types of its records.
    abbrev pub nsec_record : List Rr → Rr
    nsec_record rs =
        own type_nsec params.minimum
          (or_empty (nsec_rdata (take (end - 4 - 12) (drop 12 query)) (nsec_types (types_of rs))))

    -- The authority section of a response without answers.
    abbrev pub denial : List Rr → List Rr
    denial rs = soa (name params.zone) ∷ (if sign P params then nsec_record rs ∷ [] else [])

    -- The sections for a question at a name.
    abbrev pub lookup : Node → ℕ → Sections
    lookup node qtype =
        if node.apex && (qtype == type_nsec && is_some params.dnssec)
        then record { answers = nsec_record node.records ∷ []; authority = []; additional = [] }
        else if is_empty (matching qtype node.records)
        then record { answers = []; authority = denial node.records; additional = [] }
        else record {
          answers = matching qtype node.records;
          authority = if node.apex && qtype == type_soa then ns_records params.ns_names else [];
          additional =
              if node.apex && (qtype == type_soa || qtype == type_ns || qtype == type_any)
              then glue_records params.ns_names
              else [];
        }

    abbrev pub message_of : Sections → Msg
    message_of s = record {
      buf = wire (opening query true rcode_noerror (asked query end));
      answers = s.answers;
      authority = s.authority;
      additional = s.additional;
    }

    -- The bytes of an authoritative response with these sections: each section's records in their
    -- sets, each set in order and signed where the zone is, all counted, and the OPT record.
    unfoldable pub response : Sections → Bytes
    response s = wire (
        with_opt query (sign P params) (
          laid_out P query end params (message_of s)
            (opening query true rcode_noerror (asked query end))))
