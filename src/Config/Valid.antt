-- ===== src/Config/Valid.antt =====
-- What holds of every configuration that `Config::from_env` returns.
use rustyalias.Common.{
  ℕ, ◌^◌, ◌<◌, ◌≡◌, ◌≢◌, ◌⊎◌, inl, inr, refl, arith, false, List, [], ◌∷◌, Option, some, Bytes,
  codes, is_empty, unwrap_or, ret, All, Bool-cases,
}
use rustyalias.Text.{split}
use rustyalias.Text.Space.{trim}
use rustyalias.Text.Numbers.{parse_u32, parse_u64}
use rustyalias.Text.Numbers.Bounds.{parse_unsigned-lt}
use rustyalias.Dnssec.Key.{Platform}
use rustyalias.Dnssec.Load.{KeyCodec}
use rustyalias.Config.{Config, trimmed_names, parse_ns_names}
use rustyalias.Config.Environment.{Environment, var_or, from_env}

-- A name server's name is given and not empty, or is the primary one.
abbrev pub IsServerName : Bytes → Bytes → Type 0
IsServerName soa_name n = (n ≢ []) ⊎ (n ≡ soa_name)

is_empty-ne_nil : (s : Bytes) → is_empty s ≡ false → s ≢ []
is_empty-ne_nil s e q = cc

trimmed_names-IsServerName :
    (soa_name : Bytes) (ps : List Bytes) → All (IsServerName soa_name) (trimmed_names ps)
unfolding trimmed_names
trimmed_names-IsServerName soa_name [] = tt
trimmed_names-IsServerName soa_name (p ∷ ps) =
    let rest = trimmed_names-IsServerName soa_name ps in
    elim (Bool-cases (is_empty (trim p))) [
      | inl e ↦ rw e rest
      | inr e ↦ rw e (inl (is_empty-ne_nil (trim p) e), rest)
    ]

is_empty_names : (ns : List Bytes) → is_empty ns ≡ false → ns ≢ []
is_empty_names ns e q = cc

-- Whatever NS_NAMES holds, there is a name server, and each has a name that is not empty or is the
-- primary one.
pub parse_ns_names-IsServerName :
    (raw : Option Bytes) (soa_name : Bytes)
    → (parse_ns_names raw soa_name ≢ []) × All (IsServerName soa_name) (parse_ns_names raw soa_name)
unfolding parse_ns_names
parse_ns_names-IsServerName raw soa_name =
    let names = trimmed_names (split b',' (unwrap_or raw [])) in
    elim (Bool-cases (is_empty names)) [
      | inl e ↦ rw e ((λ q. cc), (inr refl, tt))
      | inr e ↦ rw e (is_empty_names names e, trimmed_names-IsServerName soa_name _)
    ]

u32_lt : (s : Bytes) (n : ℕ) → parse_u32 s ≡ some n → n < 2 ^ 32
u32_lt s n e = parse_unsigned-lt (2 ^ 32) s _ (omega arith) e

u64_lt : (s : Bytes) (n : ℕ) → parse_u64 s ≡ some n → n < 2 ^ 64
u64_lt s n e = parse_unsigned-lt (2 ^ 64) s _ (omega arith) e

-- The numbers fit the types of the fields.
pub record HasRanges (P : Platform) (config : Config P) : Type 0 where
  pub serial_lt : config.serial < 2 ^ 32
  pub refresh_lt : config.refresh < 2 ^ 32
  pub retry_lt : config.retry < 2 ^ 32
  pub expire_lt : config.expire < 2 ^ 32
  pub minimum_lt : config.minimum < 2 ^ 32
  pub seconds_lt : config.rate_limit_seconds < 2 ^ 64
  pub requests_lt : config.rate_limit_requests < 2 ^ 32

pub record IsValid (P : Platform) (config : Config P) : Type 0 where
  pub ranges : HasRanges P config
  pub some_server : config.ns_names ≢ []
  pub server_names : All (IsServerName config.soa_name) config.ns_names

module _ (P : Platform) (K : KeyCodec P) where
  from_env-HasRanges :
      (version : Bytes) (env : Environment) (config : Config P)
      → from_env P K version env ≡ ret config
      → HasRanges P config
  unfolding from_env
  from_env-HasRanges version env config h = ground (
    arith,
    u32_lt (var_or env (codes "SERIAL") (codes "1")) config.serial,
    u32_lt (var_or env (codes "REFRESH") (codes "3600")) config.refresh,
    u32_lt (var_or env (codes "RETRY") (codes "1800")) config.retry,
    u32_lt (var_or env (codes "EXPIRE") (codes "604800")) config.expire,
    u32_lt (var_or env (codes "MINIMUM") (codes "3600")) config.minimum,
    u64_lt (var_or env (codes "RATE_LIMIT_SECONDS") (codes "0")) config.rate_limit_seconds,
    u32_lt (var_or env (codes "RATE_LIMIT_REQUESTS") (codes "0")) config.rate_limit_requests,
  )

  from_env-ns_names :
      (version : Bytes) (env : Environment) (config : Config P)
      → from_env P K version env ≡ ret config
      → parse_ns_names (env (codes "NS_NAMES")) config.soa_name ≡ config.ns_names
  unfolding from_env
  from_env-ns_names version env config h = ground arith

  -- Every configuration that `from_env` returns is valid: its numbers are in the ranges of u32 and
  -- u64, and it has a name server, each of them with a name that is not empty or is the primary one.
  pub from_env-IsValid :
      (version : Bytes) (env : Environment) {config : Config P}
      → from_env P K version env ≡ ret config
      → IsValid P config
  from_env-IsValid version env {config} h =
      let (served, names) = parse_ns_names-IsServerName (env (codes "NS_NAMES")) config.soa_name in
      let same = from_env-ns_names version env config h in
      record {
        ranges = from_env-HasRanges version env config h;
        some_server = rw same at served;
        server_names = rw same at names;
      }
