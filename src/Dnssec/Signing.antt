-- ===== src/Dnssec/Signing.antt =====
-- What src/dns/dnssec.rs makes of a key, on the documented sizes of points, digests and signatures.
use rustyalias.Common.{
  ℕ, ◌+◌, ◌≡◌, refl, arith, Option, List, Bytes, length, length-append, length-drop, drop, ==_iff,
  ret,
}
use rustyalias.Wire.{encode_domain_name}
use rustyalias.Dnssec.Key.{
  Platform, IsPlatform, DnssecKey, key_tag, dnskey_rdata_of, from_signing_key, ds_rdata,
  rrsig_prefix, sign_rrsig,
}

-- The documented sizes make `from_signing_key` return: its DNSKEY has 68 bytes, of which the last
-- 64 are the point without its tag, and its key tag is the one of these bytes.
pub from_signing_key-Returns :
    (P : Platform) (documented : IsPlatform P) (k : P.SigningKey)
    → (key : DnssecKey P) × (from_signing_key P k ≡ ret key)
      × (length key.dnskey_rdata ≡ 68)
      × (drop 4 key.dnskey_rdata ≡ drop 1 (P.sec1_point k))
      × (key.key_tag ≡ key_tag key.dnskey_rdata)
unfolding from_signing_key dnskey_rdata_of
from_signing_key-Returns P documented k =
    rw ((==_iff _ _).1 (documented.point_tag k), (==_iff _ _).1 (documented.point_length k))
      (
        _,
        refl,
        omega (arith, length-drop 1 (P.sec1_point k), documented.point_length k),
        refl,
        refl,
      )

-- On the documented sizes a DS has 36 bytes, and an RRSIG has 82 bytes beside the signer's name.
pub ds_rdata-length :
    (P : Platform) (documented : IsPlatform P) (key : DnssecKey P) (reading : Option ℕ)
    (owner_wire : Bytes) (typ ttl : ℕ) (rdatas : List Bytes) (zone : Bytes)
    → (length (ds_rdata P key zone) ≡ 36)
      × (length (sign_rrsig P key reading owner_wire typ ttl rdatas zone)
          ≡ 82 + length (encode_domain_name zone))
unfolding ds_rdata sign_rrsig rrsig_prefix
ds_rdata-length P documented key reading owner_wire typ ttl rdatas zone =
    (rw (documented.sha256_length _), rw (length-append, documented.sign_length _ _) (omega arith))
