-- ===== src/Query/Node.antt =====
-- The name of a question as a name of the zone, with its records.
use rustyalias.Common.{not, ◌&&◌, ◌++◌, Option, none, some, Bytes, codes, if◌then◌else◌, is_empty}
use rustyalias.IpParser.{Addresses, interpret_ip}
use rustyalias.Wire.{names_eq}
use rustyalias.Dnssec.Key.{Platform}
use rustyalias.Response.{ZoneParams}
use rustyalias.Response.Contents.{Node}
use rustyalias.Response.Contents.Hosts.{host, text}
use rustyalias.Response.Contents.Apex.{apex}
use rustyalias.Config.{Config}
use rustyalias.Query.{is_version_query, dmarc_owner, is_configured_ns}

-- The addresses that a name holds, or none.
abbrev pub addresses : Option Addresses → Addresses
addresses none = (none, none)
addresses (some ip) = ip

module _ (P : Platform) (config : Config P) (params : ZoneParams P) where
  -- The text of the version, the text of `_dmarc`, the records of the apex, the addresses of a name
  -- server, or the address that the name itself holds.
  unfoldable pub node : Bytes → Node
  node domain =
      if is_version_query domain
      then text (codes "RustyAlias v" ++ config.version)
      else if not (is_empty config.dmarc) && names_eq domain (dmarc_owner config.glue_name)
      then text config.dmarc
      else if names_eq domain config.glue_name
      then apex P params
      else if is_configured_ns P domain config
      then host (some config.glue_ip, config.glue_ip6)
      else host (addresses (interpret_ip domain))
