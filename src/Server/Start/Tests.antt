-- ===== src/Server/Start/Tests.antt =====
-- The theorem about `main` in src/main.rs at an environment that sets ten variables.
use rustyalias.Common.{
  List, some, none, if◌then◌else◌, codes, [], ◌≡◌, refl, arith, true, Bytes, ret,
}
use rustyalias.Text.Numbers.{decimal}
use rustyalias.Net.{Ipv4Addr}
use rustyalias.IpParser.Hyphens.{joined}
use rustyalias.Dnssec.Hex.{hex_encode}
use rustyalias.Dnssec.Tests.{stand_in-IsPlatform, stand_in_codec, stand_in_codec-IsKeyCodec}
use rustyalias.Query.Tests.{stand_in}
use rustyalias.Config.{Config}
use rustyalias.Config.Environment.{Environment}
use rustyalias.Config.Valid.{IsValid}
use rustyalias.Server.Start.{eq_text, start, running}
use rustyalias.Server.Start.Runs.{Numbers, Sets, HasSettings, start-runs}

abbrev some_numbers : Numbers
some_numbers = record {
  serial = 2024;
  refresh = 7200;
  retry = 900;
  expire = 1209600;
  minimum = 60;
  seconds = 10;
  requests = 200;
}

abbrev some_ip : Ipv4Addr
some_ip = record { a = 37; b = 27; c = 198; d = 249 }

-- An environment that sets these.
abbrev some_env : Environment
some_env name =
    if eq_text name (codes "SERIAL")
    then some (decimal 2024)
    else if eq_text name (codes "REFRESH")
    then some (decimal 7200)
    else if eq_text name (codes "RETRY")
    then some (decimal 900)
    else if eq_text name (codes "EXPIRE")
    then some (decimal 1209600)
    else if eq_text name (codes "MINIMUM")
    then some (decimal 60)
    else if eq_text name (codes "RATE_LIMIT_SECONDS")
    then some (decimal 10)
    else if eq_text name (codes "RATE_LIMIT_REQUESTS")
    then some (decimal 200)
    else if eq_text name (codes "GLUE_IP")
    then some (joined b'.' some_ip)
    else if eq_text name (codes "DNSSEC_PRIVATE_KEY")
    then some (hex_encode (stand_in_codec.to_bytes tt))
    else none

some_env-Sets : Sets some_env some_numbers some_ip (hex_encode (stand_in_codec.to_bytes tt))
unfolding eq_text
some_env-Sets = record {
  serial = refl;
  refresh = refl;
  retry = refl;
  expire = refl;
  minimum = refl;
  seconds = refl;
  requests = refl;
  address = refl;
  address6 = refl;
  key = refl;
}

start-runs_example :
    (lines : List Bytes) × (config : Config stand_in) × (start stand_in stand_in_codec [] tt
        (codes "1.8.1")
        some_env
        true
        true
      ≡ ret (running lines config (record { window = 10_000_000_000; max_requests = 200 })))
    × HasSettings config some_numbers some_ip tt
    × IsValid stand_in config
start-runs_example =
    start-runs stand_in stand_in-IsPlatform stand_in_codec stand_in_codec-IsKeyCodec [] tt
      (codes "1.8.1") some_env some_numbers some_ip tt refl some_env-Sets (omega arith)
      (omega arith)
