-- ===== src/Server/Start.antt =====
-- src/main.rs: `main` up to its loops. The arguments, the environment, the random key and whether
-- the two sockets can be bound are inputs; what is printed and what the loops start from is the
-- answer.
pub mod Runs
pub mod Tests
use rustyalias.Common.{
  ℕ, Bool, true, false, not, ◌&&◌, List, [], ◌∷◌, ◌++◌, Option, none, some, Bytes, codes, ◌==◌, any,
  if◌then◌else◌, Outcome, ret, ◌>>=◌,
}
use rustyalias.Text.Numbers.{decimal}
use rustyalias.Dnssec.Key.{Platform, DnssecKey}
use rustyalias.Dnssec.Load.{KeyCodec}
use rustyalias.Dnssec.Print.{ds_presentation, generate_and_print}
use rustyalias.Config.{Config}
use rustyalias.Config.Environment.{Environment, from_env}
use rustyalias.RateLimit.{RateLimiter, new, is_enabled}

-- `==` of two texts.
unfoldable pub eq_text : Bytes → Bytes → Bool
eq_text [] [] = true
eq_text (x ∷ xs) (y ∷ ys) = x == y && eq_text xs ys
eq_text _ _ = false

-- How `main` goes on: it has printed a key and returns; or a socket could not be bound and it
-- returns an error; or it has printed some lines and runs its loops.
pub data Start (P : Platform) : Type 0 where
  printed : List Bytes → Start P
  unbound : Start P
  running : List Bytes → Config P → RateLimiter → Start P

module _ (P : Platform) where
  abbrev dnssec_lines : Bytes → Option (DnssecKey P) → Outcome (List Bytes)
  dnssec_lines zone none = ret []
  dnssec_lines zone (some key) = do
    ds ← ds_presentation P key zone
    ret (
        (codes "DNSSEC enabled (ECDSAP256SHA256, key tag " ++ (decimal key.key_tag ++ codes ")"))
        ∷ (codes "  DS: " ++ (zone ++ (codes " IN DS " ++ ds)))
        ∷ [])

  abbrev limit_lines : Config P → RateLimiter → List Bytes
  limit_lines config rl =
      if is_enabled rl
      then (codes "Rate limit: "
          ++ (decimal config.rate_limit_requests
              ++ (codes " requests per "
                  ++ (decimal config.rate_limit_seconds ++ codes " second(s) per source IP"))))
        ∷ []
      else []

  unfoldable pub announce : Config P → RateLimiter → Outcome (List Bytes)
  announce config rl = do
    dnssec ← dnssec_lines config.glue_name config.dnssec
    ret (
        codes "RustyAlias Server Started on Port 5053 (UDP/TCP)"
        ∷ (dnssec ++ limit_lines config rl))

module _ (P : Platform) (K : KeyCodec P) where
  unfoldable pub start :
      List Bytes → P.SigningKey → Bytes → Environment → Bool → Bool → Outcome (Start P)
  unfolding announce eq_text
  start args generated version env udp_bound tcp_bound =
      if any (λ a. eq_text a (codes "--generate-dnssec-key")) args
      then (do
        lines ← generate_and_print P K generated (env (codes "GLUE_NAME"))
        ret (printed lines))
      else (do
        config ← from_env P K version env
        let rate_limiter = new config.rate_limit_seconds config.rate_limit_requests
        (if not (udp_bound && tcp_bound) then ret unbound else (do
          lines ← announce P config rate_limiter
          ret (running lines config rate_limiter))))
