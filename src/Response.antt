-- ===== src/Response.antt =====
-- src/dns/response.rs: messages, their sections and the builders of whole responses.
pub mod Emit
pub mod Build
pub mod Packet
pub mod Sections
pub mod Layout
pub mod Read
pub mod Start
pub mod Truncate
pub mod Reply
pub mod Builders
pub mod Replies
pub mod Apex
pub mod Order
pub mod Address
pub mod Contents
pub mod Tests
use rustyalias.Common.{
  ℕ, ◌+◌, ◌-◌, ◌%◌, Bool, true, false, ◌&&◌, List, [], ◌∷◌, ◌++◌, Option, none, some, Bytes, ltb,
  leb, ◌==◌, if◌then◌else◌, is_some, length, take, min, Outcome, ret, ◌>>=◌, be32, slice,
}
use rustyalias.Net.{Ipv4Addr, Ipv6Addr, octets, octets6}
use rustyalias.Wire.{
  type_a, type_ns, type_soa, type_txt, type_aaaa, type_dnskey, type_cds, type_cdnskey, ttl_soa,
  ttl_rr, offset_ancount, offset_nscount, offset_arcount, encode_domain_name, name_in_bailiwick,
  question_section_end, response_flags,
}
use rustyalias.Dnssec.Key.{Platform, DnssecKey, ds_rdata}

module _ (P : Platform) where
  pub record ZoneParams : Type 0 where
    pub zone : Bytes
    pub ns_name : Bytes
    pub ns_names : List Bytes
    pub glue_ip : Ipv4Addr
    pub glue_ip6 : Option Ipv6Addr
    pub hostmaster : Bytes
    pub serial : ℕ
    pub refresh : ℕ
    pub retry : ℕ
    pub expire : ℕ
    pub minimum : ℕ
    pub spf : Option Bytes
    pub dnssec : Option (DnssecKey P)
    pub do_bit : Bool

-- `question` is the compression pointer to the name at offset 12.
pub data Owner : Type 0 where
  question : Owner
  name : Bytes → Owner

pub record Rr : Type 0 where
  pub owner : Owner
  pub typ : ℕ
  pub ttl : ℕ
  pub rdata : Bytes

pub record Msg : Type 0 where
  pub buf : Bytes
  pub answers : List Rr
  pub authority : List Rr
  pub additional : List Rr

-- `Msg::with_question`.
unfoldable pub with_question : Bytes → Bool → ℕ → Outcome (Option Msg)
with_question query aa rcode = elim (question_section_end query) [
  | none ↦ ret none
  | some end ↦ do
    id ← slice query 0 2
    qdcount ← slice query 4 6
    asked ← slice query 12 end
    let counts : Bytes = 0 ∷ 0 ∷ 0 ∷ 0 ∷ 0 ∷ 0 ∷ [] in
        ret (
          some (record {
            buf = id ++ (response_flags query aa rcode ++ (qdcount ++ (counts ++ asked)));
            answers = [];
            authority = [];
            additional = [];
          }))
]

-- A section is named by the place of its count; any other place is the answers'.
unfoldable pub add_rr : Msg → ℕ → Owner → ℕ → ℕ → Bytes → Msg
add_rr msg count_offset owner typ ttl rdata =
    let rr : Rr = record { owner = owner; typ = typ; ttl = ttl; rdata = rdata } in
    if count_offset == offset_nscount
    then record msg { authority = msg.authority ++ (rr ∷ []) }
    else if count_offset == offset_arcount
    then record msg { additional = msg.additional ++ (rr ∷ []) }
    else record msg { answers = msg.answers ++ (rr ∷ []) }

unfoldable pub add_ns : Msg → ℕ → Owner → Bytes → Msg
add_ns msg count_offset owner ns_name =
    add_rr msg count_offset owner type_ns ttl_rr (encode_domain_name ns_name)

-- The loop of `add_ns_set`.
unfoldable pub add_ns_names : Msg → ℕ → List Bytes → Msg
add_ns_names msg count_offset [] = msg
add_ns_names msg count_offset (n ∷ ns) =
    add_ns_names (add_ns msg count_offset question n) count_offset ns

unfoldable pub add_a : Msg → ℕ → Owner → Ipv4Addr → Msg
add_a msg count_offset owner ip = add_rr msg count_offset owner type_a ttl_rr (octets ip)

unfoldable pub add_aaaa : Msg → ℕ → Owner → Ipv6Addr → Msg
add_aaaa msg count_offset owner ip = add_rr msg count_offset owner type_aaaa ttl_rr (octets6 ip)

-- One character string: at most 255 bytes of the text, behind their number.
unfoldable pub add_txt : Msg → Bytes → Msg
add_txt msg txt =
    let len = min (length txt) 255 in
    add_rr msg offset_ancount question type_txt ttl_rr (len % 256 ∷ take len txt)

module _ (P : Platform) where
  -- `ZoneParams::sign`.
  unfoldable pub sign : ZoneParams P → Bool
  sign params = is_some params.dnssec && params.do_bit

  -- `ZoneParams::apex_types`.
  unfoldable pub apex_types : ZoneParams P → List ℕ
  apex_types params =
      type_soa
      ∷ type_ns
      ∷ type_a
      ∷ ((if is_some params.glue_ip6 then type_aaaa ∷ [] else [])
          ++ ((if is_some params.spf then type_txt ∷ [] else [])
              ++ (if is_some params.dnssec
                  then type_dnskey ∷ type_cds ∷ type_cdnskey ∷ []
                  else [])))

  unfoldable pub soa_rdata : ZoneParams P → Bytes
  soa_rdata params =
      encode_domain_name params.ns_name
      ++ (encode_domain_name params.hostmaster
          ++ (be32 params.serial
              ++ (be32 params.refresh
                  ++ (be32 params.retry ++ (be32 params.expire ++ be32 params.minimum)))))

  unfoldable pub add_soa : Msg → ℕ → Owner → ZoneParams P → Msg
  unfolding soa_rdata
  add_soa msg count_offset owner params =
      add_rr msg count_offset owner type_soa ttl_soa (soa_rdata params)

  unfoldable pub add_ns_set : Msg → ℕ → ZoneParams P → Msg
  unfolding add_ns_names
  add_ns_set msg count_offset params = add_ns_names msg count_offset params.ns_names

  abbrev pub dnskey_record : Msg → ZoneParams P → Option (DnssecKey P) → Msg
  dnskey_record msg params none = msg
  dnskey_record msg params (some key) =
      add_rr msg offset_ancount question type_dnskey ttl_soa key.dnskey_rdata

  unfoldable pub add_dnskey : Msg → ZoneParams P → Msg
  add_dnskey msg params = dnskey_record msg params params.dnssec

  abbrev pub cds_record : Msg → ZoneParams P → Option (DnssecKey P) → Msg
  cds_record msg params none = msg
  cds_record msg params (some key) =
      add_rr msg offset_ancount question type_cds ttl_soa (ds_rdata P key params.zone)

  unfoldable pub add_cds : Msg → ZoneParams P → Msg
  add_cds msg params = cds_record msg params params.dnssec

  abbrev pub cdnskey_record : Msg → ZoneParams P → Option (DnssecKey P) → Msg
  cdnskey_record msg params none = msg
  cdnskey_record msg params (some key) =
      add_rr msg offset_ancount question type_cdnskey ttl_soa key.dnskey_rdata

  unfoldable pub add_cdnskey : Msg → ZoneParams P → Msg
  add_cdnskey msg params = cdnskey_record msg params params.dnssec

  -- The addresses of one name server, if it stands in the zone.
  abbrev pub add_glue : Msg → Bytes → ZoneParams P → Msg
  add_glue msg n params =
      let msg' = add_a msg offset_arcount (name n) params.glue_ip in
      elim params.glue_ip6 [ none ↦ msg' | some ip6 ↦ add_aaaa msg' offset_arcount (name n) ip6 ]

  -- The loop of `add_in_bailiwick_glue` over the names that are left.
  unfoldable pub add_glue_names : Msg → List Bytes → ZoneParams P → Outcome Msg
  add_glue_names msg [] params = ret msg
  add_glue_names msg (n ∷ ns) params = do
    inside ← name_in_bailiwick n params.zone
    add_glue_names (if inside then add_glue msg n params else msg) ns params

  unfoldable pub add_in_bailiwick_glue : Msg → ZoneParams P → Outcome Msg
  unfolding add_glue_names
  add_in_bailiwick_glue msg params = add_glue_names msg params.ns_names params
