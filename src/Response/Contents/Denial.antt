-- ===== src/Response/Contents/Denial.antt =====
-- What the NSEC record of a name says about the types of its records.
use rustyalias.Common.{
  Option, if-either, ==_iff, ==_refl, All-append, ℕ, ◌-◌, ◌≡◌, refl, ap, ◌∙◌, arith, Bool, true,
  false, not, ◌||◌, List, [], ◌∷◌, ◌++◌, map, Bytes, any, All, ◌==◌, is_empty, take, drop, ret,
  Bool-cases, inl, inr,
}
use rustyalias.Net.{Ipv4Addr, Ipv6Addr}
use rustyalias.Wire.{
  type_a, type_aaaa, type_txt, type_ns, type_dnskey, type_cds, type_cdnskey, type_nsec, type_rrsig,
  type_any,
}
use rustyalias.Dnssec.Names.{lowercase_wire_name}
use rustyalias.Dnssec.Bitmap.{cons_dedup, dedup, nsec_types, type_bitmap, nsec_rdata}
use rustyalias.Dnssec.Bitmap.Blocks.{or_assoc}
use rustyalias.Dnssec.Bitmap.Means.{Says, type_bitmap-Says}
use rustyalias.Dnssec.Bitmap.Sorting.{
  Sorted, IsType, dedup-sort_types-Sorted, any-dedup, any-dedup-sort_types,
}
use rustyalias.Dnssec.Key.{Platform}
use rustyalias.Response.{ZoneParams, Rr}
use rustyalias.Response.Contents.Matching.{
  HasType, a_records-HasType, aaaa_records-HasType, text_records-HasType, ns_records-HasType,
}
use rustyalias.Response.Contents.Apex.{
  dnskey_records-HasType, cds_records-HasType, cdnskey_records-HasType,
}
use rustyalias.Response.Contents.{
  a_records, aaaa_records, text_records, ns_records, dnskey_records, cds_records, cdnskey_records,
  host_records, apex_records, matching, types_of, nsec_record,
}

-- The type of each record is a u16.
abbrev pub AreTypes : List Rr → Type 0
AreTypes rs = All (λ r. IsType r.typ) rs

or_true : (a : Bool) → (a || true) ≡ true
or_true true = refl
or_true false = refl

or_false : (a : Bool) → (a || false) ≡ a
or_false true = refl
or_false false = refl

any-append : (p : ℕ → Bool) (ts us : List ℕ) → any p (ts ++ us) ≡ (any p ts || any p us)
any-append p [] us = refl
any-append p (t ∷ ts) us = rw (any-append p ts us) (or_assoc (p t) (any p ts) (any p us))

Sorted-IsType : (lo : ℕ) (ts : List ℕ) → Sorted lo ts → All IsType ts
Sorted-IsType lo [] h = tt
Sorted-IsType lo (t ∷ ts) (a, b, h) = (b, Sorted-IsType t ts h)

cons_dedup-IsType : (t : ℕ) (ts : List ℕ) → IsType t → All IsType ts → All IsType (cons_dedup t ts)
cons_dedup-IsType t [] lt h = (lt, tt)
cons_dedup-IsType t (u ∷ us) lt h = if-either (All IsType) (t == u) (u ∷ us) (t ∷ u ∷ us) h (lt, h)

map-IsType : (rs : List Rr) → AreTypes rs → All IsType (map (λ r. r.typ) rs)
map-IsType [] h = tt
map-IsType (r ∷ rs) (lt, h) = (lt, map-IsType rs h)

dedup-IsType : (ts : List ℕ) → All IsType ts → All IsType (dedup ts)
unfolding dedup
dedup-IsType [] h = tt
dedup-IsType (t ∷ ts) (lt, h) = cons_dedup-IsType t (dedup ts) lt (dedup-IsType ts h)

-- With the types of a name, and those of NSEC and RRSIG.
abbrev with_denial : (ℕ → Bool) → ℕ → Bool
with_denial seen t = seen t || (t == type_nsec || t == type_rrsig)

bitmap_of :
    (us : List ℕ) (seen : ℕ → Bool)
    → ((t : ℕ) → any (λ u. u == t) us ≡ seen t)
    → seen type_nsec ≡ true
    → All IsType us
    → (out : Bytes) × (type_bitmap us ≡ ret out) × Says out seen
bitmap_of [] seen same used h = absurd (let e = same type_nsec in cc)
bitmap_of (u ∷ us) seen same used h =
    let (out, e, (bs, is_out, blocks, says)) = type_bitmap-Says u us h in
    (out, e, (bs, is_out, blocks, λ t lt. says t lt ∙ same t))

==_sym : (a b : ℕ) → (a == b) ≡ (b == a)
==_sym a b = ground arith

pub matching-any :
    (t : ℕ) (rs : List Rr)
    → t == type_any ≡ false
    → any (λ u. u == t) (map (λ r. r.typ) rs) ≡ not (is_empty (matching t rs))
unfolding matching
matching-any t [] other = refl
matching-any t (r ∷ rs) other = elim (Bool-cases (t == r.typ)) [
  | inl same ↦ rw (same, (==_iff t r.typ).0 same, ==_refl r.typ) refl
  | inr different ↦ rw (different, other, ==_sym r.typ t, different) (matching-any t rs other)
]

nsec_types-any :
    (ts : List ℕ) (t : ℕ)
    → any (λ u. u == t) (nsec_types ts) ≡ with_denial (λ v. any (λ u. u == v) ts) t
unfolding nsec_types
nsec_types-any ts t =
    any-dedup-sort_types (λ u. u == t) (ts ++ (type_nsec ∷ type_rrsig ∷ []))
    ∙ any-append (λ u. u == t) ts (type_nsec ∷ type_rrsig ∷ [])
    ∙ rw (==_sym type_nsec t, ==_sym type_rrsig t, or_false (t == type_rrsig)) refl

nsec_types-IsType : (ts : List ℕ) → All IsType ts → All IsType (nsec_types ts)
unfolding nsec_types
nsec_types-IsType ts h = Sorted-IsType 0 _ (
    dedup-sort_types-Sorted (ts ++ (type_nsec ∷ type_rrsig ∷ []))
      (All-append IsType ts (type_nsec ∷ type_rrsig ∷ []) h (omega arith, (omega arith, tt))))

-- The bitmap says the types of the records, and those of NSEC and RRSIG.
abbrev pub TellsTypes : List Rr → Bytes → Type 0
TellsTypes rs out =
    Says out (λ t. any (λ u. u == t) (map (λ r. r.typ) rs) || (t == type_nsec || t == type_rrsig))

HasType-AreTypes : (typ : ℕ) (rs : List Rr) → IsType typ → HasType typ rs → AreTypes rs
HasType-AreTypes typ [] lt h = tt
HasType-AreTypes typ (r ∷ rs) lt (e, h) = (rw e lt, HasType-AreTypes typ rs lt h)

-- Records of one type in front of others.
AreTypes-append :
    (typ : ℕ) (rs ss : List Rr) → IsType typ → HasType typ rs → AreTypes ss → AreTypes (rs ++ ss)
AreTypes-append typ rs ss lt h others =
    All-append (λ r. IsType r.typ) rs ss (HasType-AreTypes typ rs lt h) others

pub host-AreTypes : (v4 : Option Ipv4Addr) (v6 : Option Ipv6Addr) → AreTypes (host_records (v4, v6))
host-AreTypes v4 v6 =
    AreTypes-append type_a (a_records v4) _ (omega arith) (a_records-HasType v4)
      (HasType-AreTypes type_aaaa (aaaa_records v6) (omega arith) (aaaa_records-HasType v6))

module _ (P : Platform) (params : ZoneParams P) where
  pub apex-AreTypes : AreTypes (apex_records P params)
  apex-AreTypes =
      let key = params.dnssec in
      (
        omega arith,
        AreTypes-append type_ns (ns_records params.ns_names) _ (omega arith)
            (ns_records-HasType params.ns_names)
            (
              omega arith,
              AreTypes-append type_aaaa (aaaa_records params.glue_ip6) _ (omega arith)
                  (aaaa_records-HasType params.glue_ip6)
                  (AreTypes-append type_txt (text_records params.spf) _ (omega arith)
                    (text_records-HasType params.spf)
                    (AreTypes-append type_dnskey (dnskey_records P params key) _ (omega arith)
                      (dnskey_records-HasType P params key)
                      (AreTypes-append type_cds (cds_records P params key) _ (omega arith)
                        (cds_records-HasType P params key)
                        (HasType-AreTypes type_cdnskey (cdnskey_records P params key) (omega arith)
                          (cdnskey_records-HasType P params key))))),
            ),
      )

module _ (P : Platform) (params : ZoneParams P) (query : Bytes) (end : ℕ) where
  pub nsec_record-TellsTypes :
      (rs : List Rr)
      → AreTypes rs
      → (out : Bytes) × ((nsec_record P params query end rs).rdata
          ≡ 1 ∷ 0 ∷ (lowercase_wire_name (take (end - 4 - 12) (drop 12 query)) ++ out))
        × TellsTypes rs out
  unfolding nsec_rdata
  nsec_record-TellsTypes rs h =
      let ts = types_of rs in
      let (out, e, says) =
        bitmap_of (nsec_types ts) (with_denial (λ v. any (λ u. u == v) (map (λ r. r.typ) rs)))
          (λ t.
            nsec_types-any ts t
            ∙ ap (λ b. b || (t == type_nsec || t == type_rrsig))
                (any-dedup (λ u. u == t) (map (λ r. r.typ) rs)))
          (or_true _) (nsec_types-IsType ts (dedup-IsType _ (map-IsType rs h))) in
      (out, rw e refl, says)
