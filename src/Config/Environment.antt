-- ===== src/Config/Environment.antt =====
-- src/config.rs: `Config::from_env`. The environment is a function: the text of a variable, if it
-- is set to one.
use rustyalias.Common.{
  ℕ, not, Option, none, some, Bytes, codes, is_empty, if◌then◌else◌, unwrap_or, Outcome, ret, ◌>>=◌,
  expect,
}
use rustyalias.Net.{Ipv6Addr, parse_ipv4, parse_ipv6}
use rustyalias.Text.Space.{trim}
use rustyalias.Text.Numbers.{parse_u32, parse_u64}
use rustyalias.Dnssec.Key.{Platform}
use rustyalias.Dnssec.Load.{KeyCodec, key_from_env}
use rustyalias.Config.{Config, parse_ns_names}

abbrev pub Environment : Type 0
Environment = Bytes → Option Bytes

-- `env::var(name).unwrap_or_else(|_| text)`.
abbrev pub var_or : Environment → Bytes → Bytes → Bytes
var_or env name text = unwrap_or (env name) text

-- `….parse().expect(…)` of a u32 and of a u64.
abbrev pub u32_setting : Environment → Bytes → Bytes → Outcome ℕ
u32_setting env name text = expect (parse_u32 (var_or env name text))

abbrev pub u64_setting : Environment → Bytes → Bytes → Outcome ℕ
u64_setting env name text = expect (parse_u64 (var_or env name text))

-- The arm for GLUE_IP6: the text is trimmed for the test only.
unfoldable pub read_glue_ip6 : Option Bytes → Outcome (Option Ipv6Addr)
read_glue_ip6 none = ret none
read_glue_ip6 (some s) =
    if not (is_empty (trim s)) then (do ip6 ← expect (parse_ipv6 s); ret (some ip6)) else ret none

module _ (P : Platform) (K : KeyCodec P) where
  -- `version` is the version in Cargo.toml.
  unfoldable pub from_env : Bytes → Environment → Outcome (Config P)
  unfolding read_glue_ip6
  from_env version env = do
    let soa_name = var_or env (codes "SOA_NAME") (codes "ns.example.com")
    let ns_names = parse_ns_names (env (codes "NS_NAMES")) soa_name
    glue_ip ← expect (parse_ipv4 (var_or env (codes "GLUE_IP") (codes "127.0.0.1")))
    glue_ip6 ← read_glue_ip6 (env (codes "GLUE_IP6"))
    serial ← u32_setting env (codes "SERIAL") (codes "1")
    refresh ← u32_setting env (codes "REFRESH") (codes "3600")
    retry ← u32_setting env (codes "RETRY") (codes "1800")
    expire ← u32_setting env (codes "EXPIRE") (codes "604800")
    minimum ← u32_setting env (codes "MINIMUM") (codes "3600")
    seconds ← u64_setting env (codes "RATE_LIMIT_SECONDS") (codes "0")
    requests ← u32_setting env (codes "RATE_LIMIT_REQUESTS") (codes "0")
    dnssec ← key_from_env P K (env (codes "DNSSEC_PRIVATE_KEY"))
    ret (record {
      glue_name = var_or env (codes "GLUE_NAME") (codes "ns.example.com");
      glue_ip = glue_ip;
      glue_ip6 = glue_ip6;
      soa_name = soa_name;
      ns_names = ns_names;
      hostmaster = var_or env (codes "HOSTMASTER") (codes "hostmaster.example.com");
      serial = serial;
      refresh = refresh;
      retry = retry;
      expire = expire;
      minimum = minimum;
      spf = var_or env (codes "SPF") (codes "v=spf1 -all");
      dmarc = var_or env (codes "DMARC") (codes "v=DMARC1; p=reject;");
      version = version;
      rate_limit_seconds = seconds;
      rate_limit_requests = requests;
      dnssec = dnssec;
    })
