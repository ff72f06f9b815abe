-- ===== src/Dnssec/Fields.antt =====
-- The fields of an RRSIG of src/dns/dnssec.rs in front of the signer's name, against RFC 4034, section
-- 3.1, and those of the DNSKEY in front of the key.
use rustyalias.Common.{
  ℕ, zero, suc, ◌+◌, ◌%◌, min, ◌≤◌, ◌<◌, ◌^◌, ◌≡◌, refl, ap, ◌∙◌, arith, All, List, [], ◌∷◌, ◌++◌,
  append_assoc, Option, Bytes, length, length-append, take, drop, drop-append_self, be16, be32,
  ◌==◌, false,
}
use rustyalias.Wire.Encode.{framed}
use rustyalias.Dnssec.Names.{count_labels, label_count}
use rustyalias.Dnssec.Key.{Platform, DnssecKey, dnskey_rdata_of, rrsig_prefix, signature_times}
use rustyalias.Dnssec.Times.{Covers, signature_times_bounds}

abbrev pub IsShort : Bytes → Type 0
IsShort p = (1 ≤ length p) × (length p < 64)

-- The name in wire form that has these labels.
pub record Spells (wire_name : Bytes) (labels : List Bytes) : Type 0 where
  pub written : wire_name ≡ framed labels ++ (0 ∷ [])
  pub are_short : All IsShort labels
  pub are_few : length labels < 128

count_labels-framed :
    (fuel : ℕ) (ps : List Bytes) (n : ℕ)
    → All IsShort ps
    → length ps < fuel
    → n + length ps < 256
    → count_labels fuel (framed ps ++ (0 ∷ [])) n ≡ n + length ps
unfolding count_labels
count_labels-framed zero ps n h lt fit = absurd (omega arith)
count_labels-framed (suc fuel) [] n h lt fit = omega arith
count_labels-framed (suc fuel) (p ∷ ps) n ((long, short), hs) lt fit =
    let e : length p % 256 ≡ length p = omega arith in
    let not_zero : (length p == 0) ≡ false = ground arith in
    let more : min 255 (n + 1) ≡ n + 1 = omega arith in
    rw
      (
        append_assoc p (framed ps) (0 ∷ []),
        e,
        not_zero,
        more,
        drop-append_self p (framed ps ++ (0 ∷ [])),
      )
      (count_labels-framed fuel ps (n + 1) hs (omega arith) (omega arith) ∙ omega arith)

length-framed : (ps : List Bytes) → length ps ≤ length (framed ps)
length-framed [] = omega arith
length-framed (p ∷ ps) = omega (arith, length-framed ps, length-append p (framed ps))

-- On a name in wire form `label_count` answers how many labels it has.
pub label_count-Spells :
    (owner : Bytes) (labels : List Bytes) → Spells owner labels → label_count owner ≡ length labels
unfolding label_count
label_count-Spells owner labels s =
    let few = s.are_few in
    rw s.written (
      count_labels-framed (length (framed labels ++ (0 ∷ []))) labels 0 s.are_short
        (omega (arith, length-framed labels, length-append (framed labels) (0 ∷ []))) (omega arith)
      ∙ omega arith)

-- The fields of an RRSIG: the type, algorithm 13, the labels of the owner, the TTL, the time at which
-- it expires and that of its inception, which hold the reading of the clock between them, and the tag
-- of the key.
pub record HasFields (rrsig : Bytes) (typ labels ttl : ℕ) (reading : Option ℕ) (tag : ℕ)
    : Type 0 where
  pub inception : ℕ
  pub expiration : ℕ
  pub covered : take 2 rrsig ≡ be16 typ
  pub algorithm : take 2 (drop 2 rrsig) ≡ 13 ∷ labels ∷ []
  pub original_ttl : take 4 (drop 4 rrsig) ≡ be32 ttl
  pub expires : take 4 (drop 8 rrsig) ≡ be32 expiration
  pub begins : take 4 (drop 12 rrsig) ≡ be32 inception
  pub in_order : inception ≤ expiration
  pub is_u32 : expiration < 2 ^ 32
  pub covers : Covers reading inception expiration
  pub signer : take 2 (drop 16 rrsig) ≡ be16 tag

-- The published key: flags 257, protocol 3 and algorithm 13.
abbrev pub IsZoneKey : Bytes → Type 0
IsZoneKey dnskey = take 4 dnskey ≡ 1 ∷ 1 ∷ 3 ∷ 13 ∷ []

pub dnskey_rdata_of-IsZoneKey : (point : Bytes) → IsZoneKey (dnskey_rdata_of point)
unfolding dnskey_rdata_of
dnskey_rdata_of-IsZoneKey point = refl

module _ (P : Platform) (key : DnssecKey P) (reading : Option ℕ) (owner : Bytes) (typ ttl : ℕ)
    (zone : Bytes) where
  pub rrsig_prefix-HasFields :
      (labels : List Bytes) (signature : Bytes)
      → Spells owner labels
      → HasFields
          (rrsig_prefix P key reading owner typ ttl zone ++ signature)
          typ
          (length labels)
          ttl
          reading
          key.key_tag
  unfolding rrsig_prefix
  rrsig_prefix-HasFields labels signature s =
      let (ordered, short, fits, covers) = signature_times_bounds reading in
      record {
        inception = (signature_times reading).0;
        expiration = (signature_times reading).1;
        covered = refl;
        algorithm = ap (λ n. 13 ∷ n ∷ []) (label_count-Spells owner labels s);
        original_ttl = refl;
        expires = refl;
        begins = refl;
        in_order = ordered;
        is_u32 = fits;
        covers = covers;
        signer = refl;
      }
