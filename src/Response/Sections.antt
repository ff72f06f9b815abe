-- ===== src/Response/Sections.antt =====
-- What `emit_section` writes, as a list of records.
use rustyalias.Common.{
  ℕ, ◌-◌, ◌≡◌, refl, ◌∙◌, arith, true, false, Option, none, some, List, [], ◌∷◌, ◌++◌, map, Bytes,
  length, take, drop, keep_if, ◌==◌, if◌then◌else◌, ret, slice_in, Bool-cases, inl, inr,
}
use rustyalias.Wire.{type_rrsig, question_section_end, encode_domain_name}
use rustyalias.Wire.Question.{question_section_end_bounds}
use rustyalias.Dnssec.Key.{Platform, DnssecKey, sign_rrsig}
use rustyalias.Dnssec.Names.{lowercase_wire_name, owner_canonical_wire}
use rustyalias.Response.{ZoneParams, Owner, question, name, Rr}
use rustyalias.Response.Emit.{
  Group, rdatas_of, write_rdatas, write_rrsig, emit_group, emit_groups, emit_section, group_rrs,
}
use rustyalias.Response.Packet.{
  Packet, wire, HasCounts, Section, offset_of, push, push_all, push_bytes, bump_count-wire,
  push_all-HasCounts, push-HasCounts, bytes_of,
}

abbrev pub rr_of : Owner → ℕ → ℕ → Bytes → Rr
rr_of o t l r = record { owner = o; typ = t; ttl = l; rdata = r }

pub push_all-append :
    (s : Section) (p : Packet) (xs ys : List Rr)
    → push_all s p (xs ++ ys) ≡ push_all s (push_all s p xs) ys
push_all-append s p [] ys = refl
push_all-append s p (x ∷ xs) ys = push_all-append s (push s p x) xs ys

push_bytes-HasCounts : {p : Packet} (b : Bytes) → HasCounts p → HasCounts (push_bytes b p)
push_bytes-HasCounts b h = omega arith

pub write_rdatas-wire :
    (s : Section) (o : Owner) (t l : ℕ) (rds : List Bytes) (p : Packet)
    → HasCounts p
    → write_rdatas (wire p) (offset_of s) o t l rds
      ≡ ret (wire (push_all s p (map (rr_of o t l) rds)))
unfolding write_rdatas
write_rdatas-wire s o t l [] p h = refl
write_rdatas-wire s o t l (r ∷ rds) p h =
    let p' = push_bytes (bytes_of (rr_of o t l r)) p in
    rw (bump_count-wire s p' (push_bytes-HasCounts _ h)) (
      write_rdatas-wire s o t l rds (push s p (rr_of o t l r)) (push-HasCounts s (rr_of o t l r) h))

-- The owner of a record set in canonical form, for a question that ends at `end`.
abbrev pub canonical : Bytes → ℕ → Owner → Bytes
canonical query end question = lowercase_wire_name (take (end - 4 - 12) (drop 12 query))
canonical query end (name n) = encode_domain_name n

-- The signature behind a group, where the zone is signed; `n` is the length of the message then.
abbrev pub rrsig_records :
    (P : Platform) → Bytes → ℕ → ZoneParams P → ℕ → Group → Option (DnssecKey P) → List Rr
rrsig_records P query end params n g none = []
rrsig_records P query end params n g (some key) =
    rr_of g.first.owner type_rrsig g.first.ttl (
      sign_rrsig P key (P.clock n) (canonical query end g.first.owner) g.first.typ g.first.ttl
        (rdatas_of g) params.zone)
    ∷ []

-- The records of a group, without the signature.
abbrev pub plain_records : Group → List Rr
plain_records g = map (rr_of g.first.owner g.first.typ g.first.ttl) (rdatas_of g)

abbrev pub signature_of : (P : Platform) → Bytes → ℕ → ZoneParams P → ℕ → Group → List Rr
signature_of P query end params n g =
    if g.first.typ == type_rrsig
    then []
    else rrsig_records P query end params n g (keep_if params.do_bit params.dnssec)

abbrev pub group_records :
    (P : Platform) → Bytes → ℕ → ZoneParams P → Section → Packet → Group → List Rr
group_records P query end params s p g =
    let plain = plain_records g in
    plain ++ signature_of P query end params (length (wire (push_all s p plain))) g

-- All that a list of groups adds to a section of `p`.
unfoldable pub section_records :
    (P : Platform) → Bytes → ℕ → ZoneParams P → Section → Packet → List Group → List Rr
section_records P query end params s p [] = []
section_records P query end params s p (g ∷ gs) =
    let mine = group_records P query end params s p g in
    mine ++ section_records P query end params s (push_all s p mine) gs

module _ (P : Platform) (query : Bytes) {end : ℕ} (e : question_section_end query ≡ some end) where
  question_wire : owner_canonical_wire query true none ≡ ret (canonical query end question)
  unfolding owner_canonical_wire
  question_wire =
      let (lo, hi) = question_section_end_bounds query e in
      rw (e, slice_in query 12 (end - 4) (omega arith) (omega arith))

  name_wire :
      (n : Bytes) → owner_canonical_wire query false (some n) ≡ ret (canonical query end (name n))
  unfolding owner_canonical_wire
  name_wire n = refl

  write_rrsig-wire :
      (s : Section) (p : Packet) (o : Owner) (t l : ℕ) (rds : List Bytes) (zone : Bytes)
      (key : DnssecKey P)
      → HasCounts p
      → write_rrsig P (wire p) (offset_of s) o t l rds query zone key
        ≡ ret (
            wire (
              push s p (
                rr_of o type_rrsig l (
                  sign_rrsig P key
                    (P.clock (length (wire p)))
                    (canonical query end o)
                    t
                    l
                    rds
                    zone))))
  unfolding write_rrsig
  write_rrsig-wire s p question t l rds zone key h =
      rw question_wire (bump_count-wire s (push_bytes _ p) (push_bytes-HasCounts _ h))
  write_rrsig-wire s p (name n) t l rds zone key h =
      rw (name_wire n) (bump_count-wire s (push_bytes _ p) (push_bytes-HasCounts _ h))

  sign_group :
      (s : Section) (p : Packet) (g : Group) (params : ZoneParams P) (key : Option (DnssecKey P))
      → HasCounts p
      → elim key [
        | none ↦ ret (wire p)
        | some k ↦
            write_rrsig P
              (wire p)
              (offset_of s)
              g.first.owner
              g.first.typ
              g.first.ttl
              (rdatas_of g)
              query
              params.zone
              k
      ]
        ≡ ret (wire (push_all s p (rrsig_records P query end params (length (wire p)) g key)))
  sign_group s p g params none h = refl
  sign_group s p g params (some k) h = write_rrsig-wire s p _ _ _ _ _ k h

  emit_group-wire :
      (s : Section) (p : Packet) (g : Group) (params : ZoneParams P)
      → HasCounts p
      → emit_group P (wire p) (offset_of s) g query params
        ≡ ret (wire (push_all s p (group_records P query end params s p g)))
  unfolding emit_group
  emit_group-wire s p g params h =
      rw (write_rdatas-wire s _ _ _ (rdatas_of g) p h, push_all-append s p (plain_records g))
        (elim (Bool-cases (g.first.typ == type_rrsig)) [
          | inl t ↦ rw t
          | inr t ↦ rw t (
              sign_group s (push_all s p (plain_records g)) g params _
                (push_all-HasCounts s (plain_records g) h))
        ])

  emit_groups-wire :
      (s : Section) (params : ZoneParams P) (gs : List Group) (p : Packet)
      → HasCounts p
      → emit_groups P (wire p) (offset_of s) gs query params
        ≡ ret (wire (push_all s p (section_records P query end params s p gs)))
  unfolding emit_groups section_records
  emit_groups-wire s params [] p h = refl
  emit_groups-wire s params (g ∷ gs) p h = rw (emit_group-wire s p g params h) (
      emit_groups-wire s params gs _
        (push_all-HasCounts s (group_records P query end params s p g) h)
      ∙ rw (push_all-append s p (group_records P query end params s p g)))

  pub emit_section-wire :
      (s : Section) (params : ZoneParams P) (rrs : List Rr) (p : Packet)
      → HasCounts p
      → emit_section P (wire p) (offset_of s) rrs query params
        ≡ ret (wire (push_all s p (section_records P query end params s p (group_rrs rrs))))
  unfolding emit_section
  emit_section-wire s params rrs p h = emit_groups-wire s params (group_rrs rrs) p h
