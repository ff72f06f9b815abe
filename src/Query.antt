-- ===== src/Query.antt =====
-- src/dns/query.rs: reading the question and choosing the response. Log lines, and with them the
-- source address that only they name, are left out.
pub mod Labels
pub mod RoundTrip
pub mod Encoded
pub mod Written
pub mod Served
pub mod Examples
pub mod Zone
pub mod Handles
pub mod Sends
pub mod Header
pub mod Explicit
pub mod Authority
pub mod Node
pub mod Outside
pub mod Refines
pub mod Denies
pub mod Reads
pub mod Datagram
pub mod Address
pub mod Lookups
pub mod Tests
use rustyalias.Common.{
  ℕ, zero, suc, ◌+◌, ◌-◌, ◌/◌, Bool, true, false, not, ◌&&◌, ◌||◌, [], ◌∷◌, ◌++◌, Option, none,
  some, Bytes, codes, ltb, leb, ◌==◌, if◌then◌else◌, length, get_elem?, drop, is_empty, any,
  bit_and, from_be, Outcome, ret, panic, ◌>>=◌, index, slice, unwrap_or, map_option,
}
use rustyalias.IpParser.{Addresses, interpret_ip}
use rustyalias.Text.{eq_ignore_case, trim_dots}
use rustyalias.Text.Utf8.{is_utf8}
use rustyalias.Wire.{type_txt, type_any, names_eq, parse_qtype_qclass}
use rustyalias.Edns.{query_dnssec_ok, maybe_truncate_udp}
use rustyalias.Dnssec.Key.{Platform}
use rustyalias.Response.{ZoneParams}
use rustyalias.Response.Build.{
  build_refused_response, build_notimp_response, build_nodata_response, build_txt_response,
  build_apex_response, build_address_response,
}
use rustyalias.Config.{Config}

unfoldable pub is_version_query : Bytes → Bool
is_version_query domain =
    eq_ignore_case domain (codes "version")
    || eq_ignore_case domain (codes "ver")
    || eq_ignore_case domain (codes "v")

-- `(b >> 3) & 0x0f` of the third byte.
unfoldable pub opcode : Bytes → ℕ
opcode query = unwrap_or (map_option (λ b. bit_and (b / 8) 0x0f) (get_elem? query 2)) 0

-- `format!("_dmarc.{}", …)`.
unfoldable pub dmarc_owner : Bytes → Bytes
dmarc_owner zone = codes "_dmarc." ++ trim_dots zone

-- `domain[split_at..]` behind a dot, both names without their last dots.
unfoldable pub is_in_zone : Bytes → Bytes → Outcome Bool
is_in_zone domain zone =
    let d = trim_dots domain in
    let z = trim_dots zone in
    if is_empty z
    then ret false
    else if eq_ignore_case d z
    then ret true
    else if leb (length d) (length z + 1)
    then ret false
    else (do
      let split_at = length d - length z
      dot ← index d (split_at - 1)
      tail ← slice d split_at (length d)
      (if not (dot == b'.') then ret false else ret (eq_ignore_case tail z)))

-- The name so far, with a dot behind it unless it is empty.
abbrev pub dotted : Bytes → Bytes
dotted [] = []
dotted (c ∷ s) = (c ∷ s) ++ (b'.' ∷ [])

-- The loop of `parse_query`. `rest` is the query from `pos` on, so `pos + len > query.len()` is
-- `len` above the bytes behind the length byte. Each round takes a byte at least; `panic` is the
-- end of the fuel, which the length of the query never reaches.
unfoldable pub read_labels : ℕ → Bytes → Bytes → Outcome (Option Bytes)
read_labels fuel [] domain = ret (some domain)
read_labels zero (len ∷ rest) domain = panic
read_labels (suc fuel) (len ∷ rest) domain =
    let next = λ (label : Bytes). read_labels fuel (drop len rest) (dotted domain ++ label) in
    if len == 0
    then ret (some domain)
    else if ltb (length rest) len
    then ret none
    else (do label ← slice rest 0 len; (if is_utf8 label then next label else ret none))

abbrev pub nonempty : Option Bytes → Option Bytes
nonempty none = none
nonempty (some []) = none
nonempty (some (c ∷ s)) = some (c ∷ s)

unfoldable pub parse_query : Bytes → Outcome (Option Bytes)
unfolding read_labels
parse_query query = if ltb (length query) 12 then ret none else (do
  high ← index query 4
  low ← index query 5
  (if not (from_be high low == 1)
      then ret none
      else (do domain ← read_labels (length query) (drop 12 query) []; ret (nonempty domain))))

-- The end of `handle_query`: an empty response is not sent.
unfoldable pub send_response : Bytes → Bytes → Outcome (Option Bytes)
send_response query response =
    if is_empty response
    then ret none
    else (do sent ← maybe_truncate_udp response query; ret (some sent))

module _ (P : Platform) where
  unfoldable pub zone_params : Config P → Bool → ZoneParams P
  zone_params config do_bit = record {
    zone = config.glue_name;
    ns_name = config.soa_name;
    ns_names = config.ns_names;
    glue_ip = config.glue_ip;
    glue_ip6 = config.glue_ip6;
    hostmaster = config.hostmaster;
    serial = config.serial;
    refresh = config.refresh;
    retry = config.retry;
    expire = config.expire;
    minimum = config.minimum;
    spf = if is_empty config.spf then none else some config.spf;
    dnssec = config.dnssec;
    do_bit = do_bit;
  }

  unfoldable pub is_configured_ns : Bytes → Config P → Bool
  is_configured_ns domain config =
      any (λ ns. names_eq domain ns) config.ns_names || names_eq domain config.soa_name

  -- The branch for the names `version`, `ver` and `v`.
  unfoldable pub answer_version : Bytes → ℕ → Bool → Config P → ZoneParams P → Outcome Bytes
  answer_version query qtype in_zone config params =
      if qtype == type_txt || qtype == type_any
      then build_txt_response P query (codes "RustyAlias v" ++ config.version) params
      else if in_zone
      then build_nodata_response P query params (type_txt ∷ [])
      else build_refused_response query

  unfoldable pub answer_dmarc : Bytes → ℕ → Config P → ZoneParams P → Outcome Bytes
  answer_dmarc query qtype config params =
      if qtype == type_txt || qtype == type_any
      then build_txt_response P query config.dmarc params
      else build_nodata_response P query params (type_txt ∷ [])

  -- The last two branches: a name that holds an address, or any other.
  abbrev pub answer_found : Bytes → ℕ → ZoneParams P → Option Addresses → Outcome Bytes
  answer_found query qtype params (some ip) = build_address_response P query qtype ip params
  answer_found query qtype params none = build_nodata_response P query params []

  unfoldable pub answer_address : Bytes → Bytes → ℕ → ZoneParams P → Outcome Bytes
  answer_address query domain qtype params = answer_found query qtype params (interpret_ip domain)

  -- The chain of branches that chooses the response.
  unfoldable pub answer : Bytes → Bytes → ℕ → Bool → Config P → ZoneParams P → Outcome Bytes
  unfolding answer_version answer_dmarc answer_address
  answer query domain qtype in_zone config params =
      if is_version_query domain
      then answer_version query qtype in_zone config params
      else if not (is_empty config.dmarc) && names_eq domain (dmarc_owner config.glue_name)
      then answer_dmarc query qtype config params
      else if names_eq domain config.glue_name
      then build_apex_response P query qtype params
      else if is_configured_ns domain config && in_zone
      then build_address_response P query qtype (some config.glue_ip, config.glue_ip6) params
      else answer_address query domain qtype params

  -- From the class on, for a question that could be read.
  unfoldable pub answer_question : Bytes → Bytes → ℕ → ℕ → Config P → Outcome Bytes
  unfolding answer
  answer_question query domain qtype qclass config =
      if not (qclass == 1) then build_refused_response query else (do
        in_zone ← is_in_zone domain config.glue_name
        (if not in_zone && not (is_version_query domain)
            then build_refused_response query
            else answer query domain qtype in_zone config
                (zone_params config (query_dnssec_ok query))))

  abbrev pub answer_parsed : Bytes → Bytes → Option (ℕ × ℕ) → Config P → Outcome Bytes
  answer_parsed query domain none config = ret []
  answer_parsed query domain (some (qtype, qclass)) config =
      answer_question query domain qtype qclass config

  abbrev pub handle_parsed : Bytes → Config P → Option Bytes → Outcome Bytes
  handle_parsed query config none = ret []
  handle_parsed query config (some domain) = do
    question ← parse_qtype_qclass query
    answer_parsed query domain question config

  unfoldable pub handle_query_internal : Bytes → Config P → Outcome Bytes
  unfolding answer_question
  handle_query_internal query config =
      if not (opcode query == 0)
      then build_notimp_response query
      else (do domain ← parse_query query; handle_parsed query config domain)

  -- The datagram that `handle_query` sends, if it sends one.
  unfoldable pub handle_query : Bytes → Config P → Outcome (Option Bytes)
  unfolding send_response
  handle_query query config = do
    response ← handle_query_internal query config
    send_response query response
