-- ===== src/Dnssec/Key.antt =====
-- src/dns/dnssec.rs: the key, the DS digest and the signatures. The curve, the hash and the clock
-- are not this program's code: they are the fields of `Platform`.
use rustyalias.Common.{
  ℕ, ◌+◌, ◌-◌, ◌*◌, ◌/◌, ◌%◌, ◌^◌, ◌≡◌, Bool, true, not, ◌||◌, List, [], ◌∷◌, ◌++◌, Option, none,
  some, Bytes, ◌==◌, if◌then◌else◌, length, get_or, drop, min, be16, be32, Outcome, ret, panic, All,
  IsByte,
}
use rustyalias.Wire.{class_in, encode_domain_name}
use rustyalias.Dnssec.Names.{label_count}

-- `clock n` is the reading of `SystemTime::now` in seconds since the epoch (`none`: before it) by
-- the signature that is made while the message holds `n` bytes. A message grows between two
-- signatures, so every sequence of readings is such a function.
pub record Platform : Type 1 where
  pub SigningKey : Type 0
  pub sec1_point : SigningKey → Bytes
  pub sign : SigningKey → Bytes → Bytes
  pub sha256 : Bytes → Bytes
  pub clock : ℕ → Option ℕ

-- What the documentation of `p256` and `sha2` promises: an uncompressed point is the byte 4 and two
-- coordinates of 32 bytes, a signature has 64 bytes, a digest 32.
pub record IsPlatform (P : Platform) : Type 0 where
  pub point_length : (k : P.SigningKey) → length (P.sec1_point k) ≡ 65
  pub point_tag : (k : P.SigningKey) → get_or (P.sec1_point k) 0 0 ≡ 4
  pub point_bytes : (k : P.SigningKey) → All IsByte (P.sec1_point k)
  pub sign_length : (k : P.SigningKey) (m : Bytes) → length (P.sign k m) ≡ 64
  pub sign_bytes : (k : P.SigningKey) (m : Bytes) → All IsByte (P.sign k m)
  pub sha256_length : (m : Bytes) → length (P.sha256 m) ≡ 32
  pub sha256_bytes : (m : Bytes) → All IsByte (P.sha256 m)

abbrev pub alg_ecdsap256sha256 : ℕ
alg_ecdsap256sha256 = 13

abbrev pub digest_sha256 : ℕ
digest_sha256 = 2

abbrev dnskey_flags_csk : ℕ
dnskey_flags_csk = 257

abbrev dnskey_protocol : ℕ
dnskey_protocol = 3

abbrev pub signature_validity_secs : ℕ
signature_validity_secs = 7 * 24 * 3600

abbrev pub inception_skew_secs : ℕ
inception_skew_secs = 3600

-- The loop of `key_tag`: `even` says that the place of the next byte is even. The sum is a u32.
unfoldable pub sum_words : Bool → Bytes → ℕ → ℕ
sum_words even [] ac = ac
sum_words even (b ∷ bs) ac = sum_words (not even) bs ((ac + (if even then b * 256 else b)) % 2 ^ 32)

-- `ac += ac >> 16; ac as u16`.
unfoldable pub key_tag : Bytes → ℕ
unfolding sum_words
key_tag dnskey_rdata =
    let ac = sum_words true dnskey_rdata 0 in (ac + ac / 2 ^ 16) % 2 ^ 32 % 2 ^ 16

-- Seconds as a u32; inception and expiration stop at the ends of that range.
unfoldable pub signature_times : Option ℕ → ℕ × ℕ
signature_times reading =
    let now : ℕ = elim reading [ none ↦ 0 | some secs ↦ secs % 2 ^ 32 ] in
    (now - inception_skew_secs, min (2 ^ 32 - 1) (now + signature_validity_secs))

module _ (P : Platform) where
  pub record DnssecKey : Type 0 where
    pub signing_key : P.SigningKey
    pub dnskey_rdata : Bytes
    pub key_tag : ℕ

-- The RDATA of the DNSKEY record for an uncompressed point.
unfoldable pub dnskey_rdata_of : Bytes → Bytes
dnskey_rdata_of point =
    be16 dnskey_flags_csk ++ (dnskey_protocol ∷ alg_ecdsap256sha256 ∷ drop 1 point)

-- One record of the signed text.
abbrev pub signed_record : Bytes → ℕ → ℕ → Bytes → Bytes
signed_record owner_wire typ original_ttl rdata =
    owner_wire
    ++ (be16 typ ++ (be16 class_in ++ (be32 original_ttl ++ (be16 (length rdata) ++ rdata))))

unfoldable pub signed_records : Bytes → ℕ → ℕ → List Bytes → Bytes
signed_records owner_wire typ original_ttl [] = []
signed_records owner_wire typ original_ttl (rdata ∷ rdatas) =
    signed_record owner_wire typ original_ttl rdata
    ++ signed_records owner_wire typ original_ttl rdatas

module _ (P : Platform) where
  -- The panic stands for a point that is not uncompressed.
  unfoldable pub from_signing_key : P.SigningKey → Outcome (DnssecKey P)
  from_signing_key signing_key =
      let bytes = P.sec1_point signing_key in
      if not (get_or bytes 0 0 == 4) || not (length bytes == 65)
      then panic
      else ret (record {
        signing_key = signing_key;
        dnskey_rdata = dnskey_rdata_of bytes;
        key_tag = key_tag (dnskey_rdata_of bytes);
      })

  unfoldable pub ds_rdata : DnssecKey P → Bytes → Bytes
  ds_rdata key zone =
      let digest = P.sha256 (encode_domain_name zone ++ key.dnskey_rdata) in
      be16 key.key_tag ++ (alg_ecdsap256sha256 ∷ digest_sha256 ∷ digest)

  -- The fields of the RRSIG before the signature.
  unfoldable pub rrsig_prefix : DnssecKey P → Option ℕ → Bytes → ℕ → ℕ → Bytes → Bytes
  rrsig_prefix key reading owner_wire typ original_ttl signer_name =
      let (inception, expiration) = signature_times reading in
      be16 typ
      ++ (alg_ecdsap256sha256
          ∷ label_count owner_wire
          ∷ (be32 original_ttl
              ++ (be32 expiration
                  ++ (be32 inception ++ (be16 key.key_tag ++ encode_domain_name signer_name)))))

  unfoldable pub sign_rrsig : DnssecKey P → Option ℕ → Bytes → ℕ → ℕ → List Bytes → Bytes → Bytes
  unfolding rrsig_prefix
  sign_rrsig key reading owner_wire typ original_ttl rdatas signer_name =
      let prefix = rrsig_prefix key reading owner_wire typ original_ttl signer_name in
      let to_sign = prefix ++ signed_records owner_wire typ original_ttl rdatas in
      prefix ++ P.sign key.signing_key to_sign
