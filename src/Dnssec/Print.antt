-- ===== src/Dnssec/Print.antt =====
-- src/dns/dnssec.rs: the DS record as text, and what `--generate-dnssec-key` prints.
pub mod Loads
use rustyalias.Common.{
  ℕ, List, [], ◌∷◌, ◌++◌, Option, none, some, Bytes, codes, drop, Outcome, ret, ◌>>=◌, expect,
  unwrap_or, slice, length,
}
use rustyalias.Text.{trim_dots}
use rustyalias.Text.Numbers.{decimal}
use rustyalias.Dnssec.Hex.{hex_encode}
use rustyalias.Dnssec.Key.{
  Platform, DnssecKey, ds_rdata, from_signing_key, alg_ecdsap256sha256, digest_sha256,
}
use rustyalias.Dnssec.Load.{KeyCodec}

-- Key tag, algorithm, digest type and digest with a space between each two.
abbrev pub ds_text : ℕ → Bytes → Bytes
ds_text key_tag digest =
    decimal key_tag
    ++ (codes " "
        ++ (decimal alg_ecdsap256sha256
            ++ (codes " " ++ (decimal digest_sha256 ++ (codes " " ++ digest)))))

module _ (P : Platform) where
  unfoldable pub ds_digest_hex : DnssecKey P → Bytes → Outcome Bytes
  ds_digest_hex key zone = do
    digest ← slice (ds_rdata P key zone) 4 (length (ds_rdata P key zone))
    ret (hex_encode digest)

  unfoldable pub ds_presentation : DnssecKey P → Bytes → Outcome Bytes
  unfolding ds_digest_hex
  ds_presentation key zone = do digest ← ds_digest_hex key zone; ret (ds_text key.key_tag digest)

-- The lines that a generated key prints. `pem` holds its own line ends.
abbrev pub key_lines : Bytes → Bytes → ℕ → Bytes → Bytes → Bytes → List Bytes
key_lines hex pem key_tag digest zone ds =
    codes "# Keep this private key secret and identical on every nameserver."
    ∷ codes "# Hex (convenient for Kubernetes / Compose secrets):"
    ∷ (codes "DNSSEC_PRIVATE_KEY=" ++ hex)
    ∷ []
    ∷ codes "# PKCS#8 PEM:"
    ∷ pem
    ∷ codes "# DS record for the parent (one.com KeyTag / Algorithm / Digest type / Digest):"
    ∷ (codes "#   KeyTag:      " ++ decimal key_tag)
    ∷ (codes "#   Algorithm:   " ++ (decimal alg_ecdsap256sha256 ++ codes " (ECDSAP256SHA256)"))
    ∷ (codes "#   Digest type: " ++ (decimal digest_sha256 ++ codes " (SHA-256)"))
    ∷ (codes "#   Digest:      " ++ digest)
    ∷ []
    ∷ (zone ++ (codes ". IN DS " ++ ds))
    ∷ []
    ∷ codes "# Deploy this key and serve CDS/CDNSKEY *before* publishing DS at the registrar."
    ∷ codes "# For .nu / .se, Internetstiftelsen scans CDS over TCP daily; bootstrap takes ~72h."
    ∷ codes "# Track: https://cds.registry.se"
    ∷ []

module _ (P : Platform) (K : KeyCodec P) where
  -- `generate_and_print`, where `generated` is the random key and `glue_name` the variable
  -- GLUE_NAME if that is set.
  unfoldable pub generate_and_print : P.SigningKey → Option Bytes → Outcome (List Bytes)
  unfolding ds_presentation
  generate_and_print generated glue_name = do
    key ← from_signing_key P generated
    secret ← expect (K.secret_of key.signing_key)
    pem ← expect (K.to_pkcs8_pem secret)
    let hex = hex_encode (K.to_bytes secret)
    let zone = trim_dots (unwrap_or glue_name (codes "example.com"))
    digest ← ds_digest_hex P key zone
    ds ← ds_presentation P key zone
    ret (key_lines hex pem key.key_tag digest zone ds)
