-- ===== src/Config.antt =====
-- src/config.rs: the settings, and the list of name servers. Config/Environment reads them.
pub mod Environment
pub mod Valid
pub mod Tests
use rustyalias.Common.{ℕ, List, [], ◌∷◌, Option, Bytes, if◌then◌else◌, is_empty, unwrap_or}
use rustyalias.Net.{Ipv4Addr, Ipv6Addr}
use rustyalias.Text.{split}
use rustyalias.Text.Space.{trim}
use rustyalias.Dnssec.Key.{Platform, DnssecKey}

module _ (P : Platform) where
  pub record Config : Type 0 where
    pub glue_name : Bytes
    pub glue_ip : Ipv4Addr
    pub glue_ip6 : Option Ipv6Addr
    pub soa_name : Bytes
    pub ns_names : List Bytes
    pub hostmaster : Bytes
    pub serial : ℕ
    pub refresh : ℕ
    pub retry : ℕ
    pub expire : ℕ
    pub minimum : ℕ
    pub spf : Bytes
    pub dmarc : Bytes
    pub version : Bytes
    pub rate_limit_seconds : ℕ
    pub rate_limit_requests : ℕ
    pub dnssec : Option (DnssecKey P)

-- `.map(str::trim).filter(|s| !s.is_empty())`.
unfoldable pub trimmed_names : List Bytes → List Bytes
trimmed_names [] = []
trimmed_names (p ∷ ps) =
    let name = trim p in if is_empty name then trimmed_names ps else name ∷ trimmed_names ps

unfoldable pub parse_ns_names : Option Bytes → Bytes → List Bytes
unfolding trimmed_names
parse_ns_names raw soa_name =
    let names = trimmed_names (split b',' (unwrap_or raw [])) in
    if is_empty names then soa_name ∷ [] else names
