-- ===== src/Response/Read/Room.antt =====
-- Records that fit their bytes, still do in their sets, and so do their signatures.
use rustyalias.Common.{
  ℕ, ◌+◌, ◌*◌, ◌≤◌, ◌<◌, ◌≡◌, refl, arith, List, [], ◌∷◌, ◌++◌, map, Option, none, some, Bytes,
  length, length-append, length-map, All, All-append, IsU16, keep_if, ◌==◌, if-either, Bool-cases,
  inl, inr,
}
use rustyalias.Wire.{type_rrsig, encode_domain_name}
use rustyalias.Dnssec.Key.{Platform, IsPlatform, DnssecKey}
use rustyalias.Dnssec.Signing.{ds_rdata-length}
use rustyalias.Response.{ZoneParams, Owner, Rr}
use rustyalias.Response.Emit.{Group, rdatas_of, sort_rdatas, insert_rdata, bytes_le, group_rrs}
use rustyalias.Response.Order.{members, group_rrs-members}
use rustyalias.Response.Packet.{Section, Packet, push_all, wire}
use rustyalias.Response.Sections.{
  rr_of, plain_records, rrsig_records, signature_of, group_records, section_records, canonical,
}
use rustyalias.Response.Read.{Fits, OwnerFits}

abbrev RdataFits : Bytes → Type 0
RdataFits r = IsU16 (length r)

insert_rdata-fits :
    (r : Bytes) (ss : List Bytes)
    → RdataFits r
    → All RdataFits ss
    → All RdataFits (insert_rdata r ss) × (length (insert_rdata r ss) ≡ 1 + length ss)
unfolding insert_rdata
insert_rdata-fits r [] h hs = ((h, tt), refl)
insert_rdata-fits r (s ∷ ss) h (k, hs) =
    let (fits, size) = insert_rdata-fits r ss h hs in
    elim (Bool-cases (bytes_le r s)) [
      | inl le ↦ rw le ((h, (k, hs)), omega arith)
      | inr gt ↦ rw gt ((k, fits), omega (arith, size))
    ]

sort_rdatas-fits :
    (rs : List Bytes)
    → All RdataFits rs
    → All RdataFits (sort_rdatas rs) × (length (sort_rdatas rs) ≡ length rs)
unfolding sort_rdatas
sort_rdatas-fits [] h = (tt, refl)
sort_rdatas-fits (r ∷ rs) (h, hs) =
    let (fits, size) = sort_rdatas-fits rs hs in
    let (all_fit, more) = insert_rdata-fits r (sort_rdatas rs) h fits in
    (all_fit, omega (arith, size, more))

rdatas-fit : (rs : List Rr) → All Fits rs → All RdataFits (map (λ r. r.rdata) rs)
rdatas-fit [] h = tt
rdatas-fit (r ∷ rs) (h, hs) = (h.rdata_fits, rdatas-fit rs hs)

rr_of-Fits :
    (o : Owner) (t l : ℕ) (rds : List Bytes)
    → OwnerFits o
    → IsU16 t
    → l < 4294967296
    → All RdataFits rds
    → All Fits (map (rr_of o t l) rds)
rr_of-Fits o t l [] ho ht hl h = tt
rr_of-Fits o t l (r ∷ rds) ho ht hl (h, hs) = (
  record { owner_fits = ho; typ_fits = ht; ttl_fits = hl; rdata_fits = h },
  rr_of-Fits o t l rds ho ht hl hs,
)

plain_records-Fits :
    (g : Group)
    → Fits g.first
    → All Fits g.others
    → All Fits (plain_records g) × (length (plain_records g) ≡ 1 + length g.others)
plain_records-Fits g h hs =
    let (fits, size) =
      sort_rdatas-fits (g.first.rdata ∷ map (λ r. r.rdata) g.others)
        (h.rdata_fits, rdatas-fit g.others hs) in
    (
      rr_of-Fits g.first.owner g.first.typ g.first.ttl (rdatas_of g) h.owner_fits h.typ_fits
          h.ttl_fits fits,
      omega (
        arith,
        size,
        length-map (rdatas_of g) (rr_of g.first.owner g.first.typ g.first.ttl),
        length-map g.others (λ r. r.rdata),
      ),
    )

All-split : (P : Rr → Type 0) (xs ys : List Rr) → All P (xs ++ ys) → All P xs × All P ys
All-split P [] ys h = (tt, h)
All-split P (x ∷ xs) ys (h, hs) = let (a, b) = All-split P xs ys hs in ((h, a), b)

module _ (P : Platform) (documented : IsPlatform P) (query : Bytes) (end : ℕ)
    (params : ZoneParams P) (short : length (encode_domain_name params.zone) < 65000) where
  rrsig_records-Fits :
      (n : ℕ) (g : Group) (key : Option (DnssecKey P))
      → Fits g.first
      → All Fits (rrsig_records P query end params n g key)
        × (length (rrsig_records P query end params n g key) ≤ 1)
  rrsig_records-Fits n g none h = (tt, omega arith)
  rrsig_records-Fits n g (some key) h =
      let (ds, size) =
        ds_rdata-length P documented key (P.clock n) (canonical query end g.first.owner) g.first.typ
          g.first.ttl (rdatas_of g) params.zone in
      (
        (
          record {
            owner_fits = h.owner_fits;
            typ_fits = omega arith;
            ttl_fits = h.ttl_fits;
            rdata_fits = omega (arith, size);
          },
          tt,
        ),
        omega arith,
      )

  signature_of-Fits :
      (n : ℕ) (g : Group)
      → Fits g.first
      → All Fits (signature_of P query end params n g)
        × (length (signature_of P query end params n g) ≤ 1)
  signature_of-Fits n g h =
      if-either (λ rs. All Fits rs × (length rs ≤ 1)) (g.first.typ == type_rrsig) [] _
        (tt, omega arith) (rrsig_records-Fits n g (keep_if params.do_bit params.dnssec) h)

  section_records-Fits :
      (s : Section) (gs : List Group) (p : Packet)
      → All Fits (members gs)
      → All Fits (section_records P query end params s p gs)
        × (length (section_records P query end params s p gs) ≤ 2 * length (members gs))
  unfolding section_records
  section_records-Fits s [] p h = (tt, omega arith)
  section_records-Fits s (g ∷ gs) p h =
      let ((first, others), rest) = All-split Fits (g.first ∷ g.others) (members gs) h in
      let (plain, plain_size) = plain_records-Fits g first others in
      let (signed, signed_size) =
        signature_of-Fits (length (wire (push_all s p (plain_records g)))) g first in
      let mine = group_records P query end params s p g in
      let (later, later_size) = section_records-Fits s gs (push_all s p mine) rest in
      (
        All-append Fits mine _ (All-append Fits (plain_records g) _ plain signed) later,
        omega (
          arith,
          plain_size,
          signed_size,
          later_size,
          length-append mine (section_records P query end params s (push_all s p mine) gs),
          length-append (plain_records g)
              (signature_of P query end params (length (wire (push_all s p (plain_records g)))) g),
          length-append g.others (members gs),
        ),
      )

  pub group_rrs-fit :
      (s : Section) (rrs : List Rr) (p : Packet)
      → All Fits rrs
      → All Fits (section_records P query end params s p (group_rrs rrs))
        × (length (section_records P query end params s p (group_rrs rrs)) ≤ 2 * length rrs)
  group_rrs-fit s rrs p h =
      let (same, uniform, parted) = group_rrs-members rrs in
      rw same at (section_records-Fits s (group_rrs rrs) p (rw same h))
