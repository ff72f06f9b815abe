-- ===== src/Config/Tests.antt =====
-- The theorems about src/config.rs at an environment that sets no variable.
use rustyalias.Common.{◌≡◌, refl, [], ◌∷◌, none, codes, ret}
use rustyalias.Text.Space.{trim}
use rustyalias.Text.Numbers.{parse_unsigned}
use rustyalias.Net.{parse_ipv4, read_number}
use rustyalias.Text.{to_digit, split}
use rustyalias.Dnssec.Load.{key_from_env}
use rustyalias.Dnssec.Tests.{stand_in_codec}
use rustyalias.Query.Tests.{stand_in}
use rustyalias.Config.{Config, parse_ns_names}
use rustyalias.Config.Environment.{Environment, from_env, read_glue_ip6}
use rustyalias.Config.Valid.{IsValid, from_env-IsValid}

abbrev unset : Environment
unset name = none

abbrev default_config : Config stand_in
default_config = record {
  glue_name = codes "ns.example.com";
  glue_ip = record { a = 127; b = 0; c = 0; d = 1 };
  glue_ip6 = none;
  soa_name = codes "ns.example.com";
  ns_names = codes "ns.example.com" ∷ [];
  hostmaster = codes "hostmaster.example.com";
  serial = 1;
  refresh = 3600;
  retry = 1800;
  expire = 604800;
  minimum = 3600;
  spf = codes "v=spf1 -all";
  dmarc = codes "v=DMARC1; p=reject;";
  version = codes "1.8.1";
  rate_limit_seconds = 0;
  rate_limit_requests = 0;
  dnssec = none;
}

defaults : from_env stand_in stand_in_codec (codes "1.8.1") unset ≡ ret default_config
unfolding from_env parse_ipv4 read_number to_digit parse_unsigned key_from_env parse_ns_names split
    trim read_glue_ip6
defaults = refl

from_env-IsValid_example : IsValid stand_in default_config
from_env-IsValid_example =
    from_env-IsValid stand_in stand_in_codec (codes "1.8.1") unset {config = default_config}
      defaults
