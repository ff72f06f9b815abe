-- ===== src/Response/Emit.antt =====
-- src/dns/response.rs: writing the sections of a message.
use rustyalias.Common.{
  ℕ, Bool, true, false, ◌&&◌, List, [], ◌∷◌, ◌++◌, none, some, Bytes, ltb, ◌==◌, if◌then◌else◌,
  keep_if, length, map, Outcome, ret, ◌>>=◌, be16, be32,
}
use rustyalias.Wire.{
  class_in, type_rrsig, offset_ancount, offset_nscount, offset_arcount, encode_domain_name,
  names_eq,
}
use rustyalias.Edns.{bump_count, maybe_append_opt}
use rustyalias.Dnssec.Key.{Platform, DnssecKey, sign_rrsig}
use rustyalias.Dnssec.Names.{owner_canonical_wire}
use rustyalias.Response.{ZoneParams, Owner, question, name, Rr, Msg, sign}

unfoldable pub owner_eq : Owner → Owner → Bool
owner_eq question question = true
owner_eq (name x) (name y) = names_eq x y
owner_eq _ _ = false

abbrev pub owner_bytes : Owner → Bytes
owner_bytes question = 0xC0 ∷ 0x0C ∷ []
owner_bytes (name n) = encode_domain_name n

-- What `write_rr` appends.
unfoldable pub rr_bytes : Owner → ℕ → ℕ → Bytes → Bytes
rr_bytes owner typ ttl rdata =
    owner_bytes owner
    ++ (be16 typ ++ (be16 class_in ++ (be32 ttl ++ (be16 (length rdata) ++ rdata))))

abbrev pub write_rr : Bytes → Owner → ℕ → ℕ → Bytes → Bytes
write_rr buf owner typ ttl rdata = buf ++ rr_bytes owner typ ttl rdata

-- A group is its first record and those behind it, so `group[0]` is there.
pub record Group : Type 0 where
  pub first : Rr
  pub others : List Rr

abbrev pub joins : Group → Rr → Bool
joins g rr = owner_eq g.first.owner rr.owner && g.first.typ == rr.typ

-- The first loop of `emit_section`, with the last group in hand.
unfoldable pub group_from : Group → List Rr → List Group
group_from last [] = last ∷ []
group_from last (rr ∷ rrs) = elim (joins last rr) [
  | true ↦ group_from (record last { others = last.others ++ (rr ∷ []) }) rrs
  | false ↦ last ∷ group_from (record { first = rr; others = [] }) rrs
]

unfoldable pub group_rrs : List Rr → List Group
unfolding group_from owner_eq
group_rrs [] = []
group_rrs (rr ∷ rrs) = group_from (record { first = rr; others = [] }) rrs

-- The order of `Vec<u8>`: lexicographic, a prefix first.
unfoldable pub bytes_le : Bytes → Bytes → Bool
bytes_le [] ys = true
bytes_le (x ∷ xs) [] = false
bytes_le (x ∷ xs) (y ∷ ys) = if x == y then bytes_le xs ys else ltb x y

unfoldable pub insert_rdata : Bytes → List Bytes → List Bytes
insert_rdata r [] = r ∷ []
insert_rdata r (s ∷ ss) = if bytes_le r s then r ∷ s ∷ ss else s ∷ insert_rdata r ss

-- `rdatas.sort()`: equal texts cannot be told apart.
unfoldable pub sort_rdatas : List Bytes → List Bytes
unfolding insert_rdata bytes_le
sort_rdatas [] = []
sort_rdatas (r ∷ rs) = insert_rdata r (sort_rdatas rs)

abbrev pub rdatas_of : Group → List Bytes
rdatas_of g = sort_rdatas (g.first.rdata ∷ map (λ r. r.rdata) g.others)

-- The loop that writes the records of a group and counts them.
unfoldable pub write_rdatas : Bytes → ℕ → Owner → ℕ → ℕ → List Bytes → Outcome Bytes
unfolding rr_bytes
write_rdatas buf count_offset owner typ ttl [] = ret buf
write_rdatas buf count_offset owner typ ttl (rdata ∷ rdatas) = do
  buf ← bump_count (write_rr buf owner typ ttl rdata) count_offset
  write_rdatas buf count_offset owner typ ttl rdatas

abbrev owner_wire_of : Bytes → Owner → Outcome Bytes
owner_wire_of query question = owner_canonical_wire query true none
owner_wire_of query (name n) = owner_canonical_wire query false (some n)

module _ (P : Platform) where
  -- The signature behind the records of a group.
  unfoldable pub write_rrsig :
      Bytes → ℕ → Owner → ℕ → ℕ → List Bytes → Bytes → Bytes → DnssecKey P → Outcome Bytes
  unfolding rr_bytes
  write_rrsig buf count_offset owner typ ttl rdatas query zone key = do
    owner_wire ← owner_wire_of query owner
    let rrsig = sign_rrsig P key (P.clock (length buf)) owner_wire typ ttl rdatas zone
    bump_count (write_rr buf owner type_rrsig ttl rrsig) count_offset

  unfoldable pub emit_group : Bytes → ℕ → Group → Bytes → ZoneParams P → Outcome Bytes
  unfolding write_rdatas write_rrsig
  emit_group buf count_offset g query params = do
    let owner = g.first.owner
    let typ = g.first.typ
    let ttl = g.first.ttl
    let rdatas = rdatas_of g
    buf ← write_rdatas buf count_offset owner typ ttl rdatas
    (if typ == type_rrsig then ret buf else elim (keep_if params.do_bit params.dnssec) [
      | none ↦ ret buf
      | some key ↦ write_rrsig buf count_offset owner typ ttl rdatas query params.zone key
    ])

  unfoldable pub emit_groups : Bytes → ℕ → List Group → Bytes → ZoneParams P → Outcome Bytes
  unfolding emit_group
  emit_groups buf count_offset [] query params = ret buf
  emit_groups buf count_offset (g ∷ gs) query params = do
    buf ← emit_group buf count_offset g query params
    emit_groups buf count_offset gs query params

  unfoldable pub emit_section : Bytes → ℕ → List Rr → Bytes → ZoneParams P → Outcome Bytes
  unfolding emit_groups group_rrs
  emit_section buf count_offset rrs query params =
      emit_groups buf count_offset (group_rrs rrs) query params

  -- `Msg::finish`.
  unfoldable pub finish : Msg → Bytes → ZoneParams P → Outcome Bytes
  unfolding emit_section
  finish msg query params = do
    buf ← emit_section msg.buf offset_ancount msg.answers query params
    buf ← emit_section buf offset_nscount msg.authority query params
    buf ← emit_section buf offset_arcount msg.additional query params
    maybe_append_opt buf query (sign P params)
