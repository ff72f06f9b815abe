-- ===== src/Response/Packet.antt =====
-- A response by its parts: the header with its three counts, and the bytes behind it.
use rustyalias.Common.{
  ℕ, ◌/◌, ◌%◌, ◌≡◌, refl, arith, List, [], ◌∷◌, ◌++◌, Bytes, IsU16, from_be-be16, ret, index, store,
  saturating_add16,
}
use rustyalias.Wire.{offset_ancount, offset_nscount, offset_arcount}
use rustyalias.Edns.{bump_count}
use rustyalias.Response.{Rr}
use rustyalias.Response.Emit.{rr_bytes}

pub record Packet : Type 0 where
  pub id0 : ℕ
  pub id1 : ℕ
  pub flags0 : ℕ
  pub flags1 : ℕ
  pub qd0 : ℕ
  pub qd1 : ℕ
  pub ancount : ℕ
  pub nscount : ℕ
  pub arcount : ℕ
  pub body : Bytes

abbrev pub wire : Packet → Bytes
wire p =
    p.id0
    ∷ p.id1
    ∷ p.flags0
    ∷ p.flags1
    ∷ p.qd0
    ∷ p.qd1
    ∷ p.ancount / 256 % 256
    ∷ p.ancount % 256
    ∷ p.nscount / 256 % 256
    ∷ p.nscount % 256
    ∷ p.arcount / 256 % 256
    ∷ p.arcount % 256
    ∷ p.body

pub record HasCounts (p : Packet) : Type 0 where
  pub an : IsU16 p.ancount
  pub ns : IsU16 p.nscount
  pub ar : IsU16 p.arcount

pub data Section : Type 0 where
  answers authority additional : Section

abbrev pub offset_of : Section → ℕ
offset_of answers = offset_ancount
offset_of authority = offset_nscount
offset_of additional = offset_arcount

-- One record more in a section.
abbrev pub bump : Section → Packet → Packet
bump answers p = record p { ancount = saturating_add16 p.ancount 1 }
bump authority p = record p { nscount = saturating_add16 p.nscount 1 }
bump additional p = record p { arcount = saturating_add16 p.arcount 1 }

abbrev pub push_bytes : Bytes → Packet → Packet
push_bytes b p = record p { body = p.body ++ b }

abbrev pub bytes_of : Rr → Bytes
bytes_of r = rr_bytes r.owner r.typ r.ttl r.rdata

abbrev pub push : Section → Packet → Rr → Packet
push s p r = bump s (push_bytes (bytes_of r) p)

abbrev pub push_all : Section → Packet → List Rr → Packet
push_all s p [] = p
push_all s p (r ∷ rs) = push_all s (push s p r) rs

pub bump-HasCounts : (s : Section) {p : Packet} → HasCounts p → HasCounts (bump s p)
bump-HasCounts answers h = omega arith
bump-HasCounts authority h = omega arith
bump-HasCounts additional h = omega arith

pub push-HasCounts : (s : Section) {p : Packet} (r : Rr) → HasCounts p → HasCounts (push s p r)
push-HasCounts answers r h = omega arith
push-HasCounts authority r h = omega arith
push-HasCounts additional r h = omega arith

pub push_all-HasCounts :
    (s : Section) (rs : List Rr) {p : Packet} → HasCounts p → HasCounts (push_all s p rs)
push_all-HasCounts s [] h = h
push_all-HasCounts s (r ∷ rs) h = push_all-HasCounts s rs (push-HasCounts s r h)

-- On the bytes of a packet with counts below 65536, `bump_count` raises just the count of the
-- section whose place it is given, by one, up to 65535.
pub bump_count-wire :
    (s : Section) (p : Packet)
    → HasCounts p
    → bump_count (wire p) (offset_of s) ≡ ret (wire (bump s p))
unfolding bump_count index store
bump_count-wire answers p h = rw (from_be-be16 p.ancount h.an) (ground arith)
bump_count-wire authority p h = rw (from_be-be16 p.nscount h.ns) (ground arith)
bump_count-wire additional p h = rw (from_be-be16 p.arcount h.ar) (ground arith)

pub wire-append : (p : Packet) (b : Bytes) → wire p ++ b ≡ wire (push_bytes b p)
wire-append p b = refl
