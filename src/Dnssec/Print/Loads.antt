-- ===== src/Dnssec/Print/Loads.antt =====
-- What `--generate-dnssec-key` prints is a setting that the server reads as the same key.
use rustyalias.Common.{
  ◌≡◌, refl, ◌∙◌, arith, ◌++◌, Option, some, List, Bytes, codes, length, get_elem?, ret, >>=-eq,
  slice_in, Returns, unwrap_or,
}
use rustyalias.Common.Results.{ok}
use rustyalias.Text.{trim_dots}
use rustyalias.Dnssec.Hex.{hex_encode}
use rustyalias.Dnssec.Key.{Platform, IsPlatform, DnssecKey, from_signing_key, ds_rdata}
use rustyalias.Dnssec.Signing.{from_signing_key-Returns}
use rustyalias.Dnssec.Load.{KeyCodec, IsKeyCodec, from_private_key_str}
use rustyalias.Dnssec.Load.RoundTrip.{from_private_key_str-hex_encode}
use rustyalias.Dnssec.Print.{ds_digest_hex, ds_presentation, key_lines, ds_text, generate_and_print}

module _ (P : Platform) where
  -- The digest is behind the four bytes of tag, algorithm and type.
  ds_digest_hex_lem :
      (key : DnssecKey P) (zone : Bytes)
      → (rest : Bytes) × (ds_digest_hex P key zone ≡ ret (hex_encode rest))
  unfolding ds_digest_hex ds_rdata
  ds_digest_hex_lem key zone =
      let r = ds_rdata P key zone in
      (_, >>=-eq _ (slice_in r 4 (length r) (omega arith) (omega arith)) refl)

  pub ds_presentation-Returns :
      (key : DnssecKey P) (zone : Bytes) → Returns (ds_presentation P key zone)
  unfolding ds_presentation
  ds_presentation-Returns key zone = let (rest, e) = ds_digest_hex_lem key zone in rw e (_, refl)

  pub from_signing_key-signing_key :
      (k : P.SigningKey) (key : DnssecKey P) → from_signing_key P k ≡ ret key → key.signing_key ≡ k
  unfolding from_signing_key
  from_signing_key-signing_key k key e = ground arith

module _ (P : Platform) (platform : IsPlatform P) (K : KeyCodec P) (codec : IsKeyCodec P K) where
  -- With the documented crates, `--generate-dnssec-key` prints its lines for every generated key; the
  -- third holds the key in hexadecimal as the setting DNSSEC_PRIVATE_KEY, and the server reads that
  -- setting as the generated key.
  pub generate_and_print-loads :
      (generated : P.SigningKey) (glue_name : Option Bytes)
      → (lines : List Bytes) × (hex : Bytes) × (key : DnssecKey P) × (generate_and_print P K
            generated glue_name
          ≡ ret lines)
        × (get_elem? lines 2 ≡ some (codes "DNSSEC_PRIVATE_KEY=" ++ hex))
        × (from_signing_key P generated ≡ ret key)
        × (from_private_key_str P K hex ≡ ret (ok key))
  unfolding generate_and_print ds_presentation
  generate_and_print-loads generated glue_name =
      let (key, made, size, point, tag) = from_signing_key-Returns P platform generated in
      let own = from_signing_key-signing_key P generated key made in
      let (secret, found) = codec.secret_of_some generated in
      let (pem, encoded) = codec.to_pkcs8_pem_some secret in
      let zone = trim_dots (unwrap_or glue_name (codes "example.com")) in
      let (digest, hexed) = ds_digest_hex_lem P key zone in
      let hex = hex_encode (K.to_bytes secret) in
      let text = hex_encode digest in
      (
        key_lines hex pem key.key_tag text zone (ds_text key.key_tag text),
        hex,
        key,
        rw (made, own, found, encoded, hexed),
        refl,
        made,
        from_private_key_str-hex_encode P K codec secret
            ∙ rw (codec.signing_key-secret_of generated secret found, made),
      )
