-- ===== src/Dnssec/Validation.antt =====
-- The signatures of src/dns/dnssec.rs as a resolver checks them (RFC 4034, section 3.1.8.1): with the
-- published key, and with what the RRSIG itself says of the record set.
use rustyalias.Common.{
  ℕ, ◌+◌, ◌≡◌, Bool, true, List, [], ◌∷◌, ◌++◌, Option, Bytes, length, take, drop, be16,
}
use rustyalias.Wire.{encode_domain_name}
use rustyalias.Dnssec.Key.{Platform, DnssecKey, rrsig_prefix}

-- What the documentation of `p256` promises of `verify`: it takes the signatures of the point's key.
abbrev pub Verifies : (P : Platform) → (Bytes → Bytes → Bytes → Bool) → Type 0
Verifies P verify = (k : P.SigningKey) (m : Bytes) → verify (P.sec1_point k) m (P.sign k m) ≡ true

-- A record of the set in canonical form: the owner, then the type that the RRSIG covers, the class
-- IN, the TTL that the RRSIG states, and the RDATA behind its length.
abbrev canonical_record : Bytes → Bytes → Bytes → Bytes
canonical_record owner rrsig rdata =
    owner ++ (take 2 rrsig ++ (0 ∷ 1 ∷ (take 4 (drop 4 rrsig) ++ (be16 (length rdata) ++ rdata))))

abbrev canonical_set : Bytes → Bytes → List Bytes → Bytes
canonical_set owner rrsig [] = []
canonical_set owner rrsig (rdata ∷ rdatas) =
    canonical_record owner rrsig rdata ++ canonical_set owner rrsig rdatas

-- The bytes of an RRSIG in front of the signature: 18, and the name of the signer.
abbrev signed_part : Bytes → ℕ
signed_part signer = 18 + length (encode_domain_name signer)

-- A resolver's check, with the RDATA of the DNSKEY record.
abbrev pub validates :
    (Bytes → Bytes → Bytes → Bool) → Bytes → Bytes → Bytes → Bytes → List Bytes → Bool
validates verify dnskey rrsig signer owner rdatas =
    verify (4 ∷ drop 4 dnskey) (take (signed_part signer) rrsig ++ canonical_set owner rrsig rdatas)
      (drop (signed_part signer) rrsig)

module _ (P : Platform) (key : DnssecKey P) (reading : Option ℕ) (owner : Bytes) (typ ttl : ℕ)
    (zone : Bytes) where
  abbrev prefix : Bytes
  prefix = rrsig_prefix P key reading owner typ ttl zone
