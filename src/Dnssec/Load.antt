-- ===== src/Dnssec/Load.antt =====
-- src/dns/dnssec.rs: reading a private key, as hexadecimal digits or as PEM. The decoders of the
-- `p256` crate are not this program's code: they are the fields of `KeyCodec`.
pub mod RoundTrip
use rustyalias.Common.{
  ℕ, ◌<◌, ◌≡◌, ◌||◌, not, Bool, true, [], ◌∷◌, Option, none, some, Bytes, ◌++◌, codes, ◌==◌, length,
  all, All, IsByte, is_empty, if◌then◌else◌, Outcome, ret, panic,
}
use rustyalias.Common.Results.{Result, ok, err, ◌>>=◌, ok_or}
use rustyalias.Text.{is_hexdigit, parse_u8}
use rustyalias.Text.Space.{trim}
use rustyalias.Text.Search.{contains_text, replace_escapes, without_spaces}
use rustyalias.Dnssec.Key.{Platform, DnssecKey, from_signing_key}

-- `SecretKey` and its conversions; an error of `from_pkcs8_pem` comes with its text.
pub record KeyCodec (P : Platform) : Type 1 where
  pub SecretKey : Type 0
  pub from_slice : Bytes → Option SecretKey
  pub from_pkcs8_pem : Bytes → Result SecretKey
  pub from_sec1_pem : Bytes → Option SecretKey
  pub to_bytes : SecretKey → Bytes
  pub to_pkcs8_pem : SecretKey → Option Bytes
  -- `SigningKey::from` a secret key, and the secret key of a signing key's bytes.
  pub signing_key : SecretKey → P.SigningKey
  pub secret_of : P.SigningKey → Option SecretKey

-- What the documentation of `p256` promises: a secret key has 32 bytes, which are read back as it;
-- it has a PEM text; a signing key's bytes are those of a secret key that gives the signing key.
pub record IsKeyCodec (P : Platform) (K : KeyCodec P) : Type 0 where
  pub to_bytes_length : (s : K.SecretKey) → length (K.to_bytes s) ≡ 32
  pub to_bytes-IsByte : (s : K.SecretKey) → All IsByte (K.to_bytes s)
  pub from_slice-to_bytes : (s : K.SecretKey) → K.from_slice (K.to_bytes s) ≡ some s
  pub to_pkcs8_pem_some : (s : K.SecretKey) → (pem : Bytes) × (K.to_pkcs8_pem s ≡ some pem)
  pub secret_of_some : (k : P.SigningKey) → (s : K.SecretKey) × (K.secret_of k ≡ some s)
  pub signing_key-secret_of :
      (k : P.SigningKey) (s : K.SecretKey) → K.secret_of k ≡ some s → K.signing_key s ≡ k

-- The loop over the pairs of digits.
unfoldable pub hex_octets : Bytes → Result Bytes
hex_octets (a ∷ b ∷ s) = do
  octet ← ok_or (parse_u8 16 (a ∷ b ∷ [])) (codes "invalid hex in DNSSEC_PRIVATE_KEY")
  rest ← hex_octets s
  ok (octet ∷ rest)
hex_octets _ = ok []

unfoldable pub parse_hex_scalar : Bytes → Result Bytes
unfolding hex_octets
parse_hex_scalar raw =
    let hex = without_spaces raw in
    if not (length hex == 64) || not (all is_hexdigit hex)
    then err (codes "expected 64 hex characters (32-byte P-256 scalar)")
    else hex_octets hex

-- `Ok(Self::from_signing_key(…))`.
abbrev pub returned {ℓ} : {A : Type ℓ} → Outcome A → Outcome (Result A)
returned (ret a) = ret (ok a)
returned panic = panic

module _ (P : Platform) (K : KeyCodec P) where
  unfoldable pub parse_pem : Bytes → Result K.SecretKey
  parse_pem raw =
      if contains_text (codes "BEGIN PRIVATE KEY") raw
      then elim (K.from_pkcs8_pem raw) [ ok s ↦ ok s | err e ↦ err (codes "PKCS#8 PEM: " ++ e) ]
      else if contains_text (codes "BEGIN EC PRIVATE KEY") raw
      then ok_or (K.from_sec1_pem raw) (codes "invalid SEC1 EC PRIVATE KEY PEM")
      else err (codes "unsupported PEM label (expected PRIVATE KEY or EC PRIVATE KEY)")

  -- The secret key of a text that is not empty.
  unfoldable pub read_secret : Bytes → Result K.SecretKey
  unfolding parse_hex_scalar parse_pem
  read_secret raw = if contains_text (codes "BEGIN") raw then parse_pem raw else (do
    bytes ← parse_hex_scalar raw
    ok_or (K.from_slice bytes) (codes "DNSSEC_PRIVATE_KEY hex is not a valid P-256 scalar"))

  abbrev pub key_of_secret : Result K.SecretKey → Outcome (Result (DnssecKey P))
  key_of_secret (ok secret) = returned (from_signing_key P (K.signing_key secret))
  key_of_secret (err e) = ret (err e)

  unfoldable pub from_private_key_str : Bytes → Outcome (Result (DnssecKey P))
  unfolding read_secret
  from_private_key_str raw =
      let raw' = replace_escapes (trim raw) in
      if is_empty raw'
      then ret (err (codes "empty DNSSEC_PRIVATE_KEY"))
      else key_of_secret (read_secret raw')

  abbrev expect_key : Outcome (Result (DnssecKey P)) → Outcome (Option (DnssecKey P))
  expect_key (ret (ok key)) = ret (some key)
  expect_key (ret (err e)) = panic
  expect_key panic = panic

  -- `DnssecKey::from_env`, where `raw` is the variable DNSSEC_PRIVATE_KEY if that is set.
  unfoldable pub key_from_env : Option Bytes → Outcome (Option (DnssecKey P))
  unfolding from_private_key_str
  key_from_env none = ret none
  key_from_env (some raw) =
      if is_empty (trim raw) then ret none else expect_key (from_private_key_str raw)
