-- ===== src/Server/Start/Runs.antt =====
-- From the environment to the loops of src/main.rs.
use rustyalias.Common.{
  ℕ, ◌*◌, ◌^◌, ◌<◌, ◌≡◌, ◌∙◌, refl, arith, true, false, List, [], Option, none, some, Bytes, codes,
  any, All, IsByte, ret, Returns,
}
use rustyalias.Common.Results.{ok}
use rustyalias.Text.Numbers.{decimal}
use rustyalias.Text.Numbers.Printed.{parse_unsigned-decimal}
use rustyalias.Net.{Ipv4Addr, octets}
use rustyalias.IpParser.Hyphens.{joined, parse_ipv4-joined}
use rustyalias.Dnssec.Hex.{hex_encode}
use rustyalias.Dnssec.Key.{Platform, IsPlatform, DnssecKey}
use rustyalias.Dnssec.Signing.{from_signing_key-Returns}
use rustyalias.Dnssec.Load.{KeyCodec, IsKeyCodec, from_private_key_str, key_from_env}
use rustyalias.Dnssec.Load.RoundTrip.{
  from_private_key_str-hex_encode, key_from_env-from_private_key_str,
}
use rustyalias.Dnssec.Print.Loads.{ds_presentation-Returns, from_signing_key-signing_key}
use rustyalias.Config.{Config, parse_ns_names}
use rustyalias.Config.Environment.{Environment, var_or, read_glue_ip6, from_env}
use rustyalias.Config.Valid.{IsValid, from_env-IsValid}
use rustyalias.RateLimit.{RateLimiter, new}
use rustyalias.Server.Start.{eq_text, running, dnssec_lines, announce, start}

module _ (P : Platform) where
  dnssec_lines-Returns :
      (zone : Bytes) (key : Option (DnssecKey P)) → Returns (dnssec_lines P zone key)
  dnssec_lines-Returns zone none = ([], refl)
  dnssec_lines-Returns zone (some key) =
      let (ds, e) = ds_presentation-Returns P key zone in rw e (_, refl)

  pub announce-Returns : (config : Config P) (rl : RateLimiter) → Returns (announce P config rl)
  unfolding announce
  announce-Returns config rl =
      let (lines, e) = dnssec_lines-Returns config.glue_name config.dnssec in rw e (_, refl)

-- The numbers of a configuration.
pub record Numbers : Type 0 where
  pub serial : ℕ
  pub refresh : ℕ
  pub retry : ℕ
  pub expire : ℕ
  pub minimum : ℕ
  pub seconds : ℕ
  pub requests : ℕ

-- An environment that sets the numbers in decimal, the address with dots, no IPv6 address, and the
-- key to a text.
pub record Sets (env : Environment) (n : Numbers) (ip : Ipv4Addr) (key_text : Bytes) : Type 0 where
  pub serial : env (codes "SERIAL") ≡ some (decimal n.serial)
  pub refresh : env (codes "REFRESH") ≡ some (decimal n.refresh)
  pub retry : env (codes "RETRY") ≡ some (decimal n.retry)
  pub expire : env (codes "EXPIRE") ≡ some (decimal n.expire)
  pub minimum : env (codes "MINIMUM") ≡ some (decimal n.minimum)
  pub seconds : env (codes "RATE_LIMIT_SECONDS") ≡ some (decimal n.seconds)
  pub requests : env (codes "RATE_LIMIT_REQUESTS") ≡ some (decimal n.requests)
  pub address : env (codes "GLUE_IP") ≡ some (joined b'.' ip)
  pub address6 : env (codes "GLUE_IP6") ≡ none
  pub key : env (codes "DNSSEC_PRIVATE_KEY") ≡ some key_text

-- The numbers are a u64 and u32 else.
pub record AreInRange (n : Numbers) : Type 0 where
  pub serial : n.serial < 2 ^ 32
  pub refresh : n.refresh < 2 ^ 32
  pub retry : n.retry < 2 ^ 32
  pub expire : n.expire < 2 ^ 32
  pub minimum : n.minimum < 2 ^ 32
  pub seconds : n.seconds < 2 ^ 64
  pub requests : n.requests < 2 ^ 32

-- The settings as they were written, and the key.
pub record HasSettings {P : Platform} (config : Config P) (n : Numbers) (ip : Ipv4Addr)
    (k : P.SigningKey) : Type 0 where
  pub serial : config.serial ≡ n.serial
  pub refresh : config.refresh ≡ n.refresh
  pub retry : config.retry ≡ n.retry
  pub expire : config.expire ≡ n.expire
  pub minimum : config.minimum ≡ n.minimum
  pub address : config.glue_ip ≡ ip
  pub address6 : config.glue_ip6 ≡ none
  pub key : (key : DnssecKey P) × (config.dnssec ≡ some key) × (key.signing_key ≡ k)

module _ (P : Platform) (platform : IsPlatform P) (K : KeyCodec P) (codec : IsKeyCodec P K) where
  key_loads :
      (secret : K.SecretKey)
      → (key : DnssecKey P) × (key_from_env P K (some (hex_encode (K.to_bytes secret)))
          ≡ ret (some key))
        × (key.signing_key ≡ K.signing_key secret)
  key_loads secret =
      let (key, made, size, point, tag) =
        from_signing_key-Returns P platform (K.signing_key secret) in
      let read : from_private_key_str P K (hex_encode (K.to_bytes secret)) ≡ ret (ok key) =
        from_private_key_str-hex_encode P K codec secret ∙ rw made in
      (
        key,
        key_from_env-from_private_key_str P K (hex_encode (K.to_bytes secret)) key read,
        from_signing_key-signing_key P (K.signing_key secret) key made,
      )

  abbrev loaded : Bytes → Environment → Numbers → Ipv4Addr → DnssecKey P → Config P
  loaded version env n ip key = record {
    glue_name = var_or env (codes "GLUE_NAME") (codes "ns.example.com");
    glue_ip = ip;
    glue_ip6 = none;
    soa_name = var_or env (codes "SOA_NAME") (codes "ns.example.com");
    ns_names =
        parse_ns_names (env (codes "NS_NAMES"))
          (var_or env (codes "SOA_NAME") (codes "ns.example.com"));
    hostmaster = var_or env (codes "HOSTMASTER") (codes "hostmaster.example.com");
    serial = n.serial;
    refresh = n.refresh;
    retry = n.retry;
    expire = n.expire;
    minimum = n.minimum;
    spf = var_or env (codes "SPF") (codes "v=spf1 -all");
    dmarc = var_or env (codes "DMARC") (codes "v=DMARC1; p=reject;");
    version = version;
    rate_limit_seconds = n.seconds;
    rate_limit_requests = n.requests;
    dnssec = some key;
  }

  env_loads :
      (version : Bytes) (env : Environment) (n : Numbers) (ip : Ipv4Addr) (key_text : Bytes)
      (key : DnssecKey P)
      → Sets env n ip key_text
      → AreInRange n
      → All IsByte (octets ip)
      → key_from_env P K (some key_text) ≡ ret (some key)
      → from_env P K version env ≡ ret (loaded version env n ip key)
  unfolding from_env read_glue_ip6
  env_loads version env n ip key_text key s r bytes loads =
      let u32 = λ (m : ℕ) (h : m < 2 ^ 32). parse_unsigned-decimal (2 ^ 32) m h (omega arith) in
      rw (
        s.serial,
        s.refresh,
        s.retry,
        s.expire,
        s.minimum,
        s.seconds,
        s.requests,
        s.address,
        s.address6,
        s.key,
        parse_ipv4-joined ip bytes,
        u32 n.serial r.serial,
        u32 n.refresh r.refresh,
        u32 n.retry r.retry,
        u32 n.expire r.expire,
        u32 n.minimum r.minimum,
        u32 n.requests r.requests,
        parse_unsigned-decimal (2 ^ 64) n.seconds r.seconds (omega arith),
        loads,
      )

  -- With the documented crates, without the flag for a new key and with both sockets bound: in an
  -- environment that sets the numbers in decimal and in their ranges, GLUE_IP to an IPv4 address with
  -- dots, DNSSEC_PRIVATE_KEY to the bytes of a secret key in hexadecimal, and no GLUE_IP6, `main` comes
  -- to its loops. Its configuration holds these numbers, the address and the key, and is valid, and its
  -- limiter has a window of that many times 1000000000 nanoseconds and the quota.
  pub start-runs :
      (args : List Bytes) (generated : P.SigningKey) (version : Bytes) (env : Environment)
      (n : Numbers) (ip : Ipv4Addr) (secret : K.SecretKey)
      → any (λ a. eq_text a (codes "--generate-dnssec-key")) args ≡ false
      → Sets env n ip (hex_encode (K.to_bytes secret))
      → AreInRange n
      → All IsByte (octets ip)
      → (lines : List Bytes) × (config : Config P) × (start P K args generated version env true true
          ≡ ret (
              running lines config
                (record { window = n.seconds * 1_000_000_000; max_requests = n.requests })))
        × HasSettings config n ip (K.signing_key secret)
        × IsValid P config
  unfolding start
  start-runs args generated version env n ip secret no_flag s r bytes =
      let (key, loads, own) = key_loads secret in
      let config = loaded version env n ip key in
      let e = env_loads version env n ip _ key s r bytes loads in
      let (lines, f) = announce-Returns P config (new n.seconds n.requests) in
      (
        lines,
        config,
        rw (no_flag, e, f),
        record {
          serial = refl;
          refresh = refl;
          retry = refl;
          expire = refl;
          minimum = refl;
          address = refl;
          address6 = refl;
          key = (key, refl, own);
        },
        from_env-IsValid P K version env e,
      )
