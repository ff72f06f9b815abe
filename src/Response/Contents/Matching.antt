-- ===== src/Response/Contents/Matching.antt =====
-- Which records of a name a question asks for.
use rustyalias.Common.{
  if-either, ℕ, ◌≡◌, refl, Bool, true, false, ◌||◌, List, [], ◌∷◌, ◌++◌, Option, none, some, Bytes,
  ◌==◌, if◌then◌else◌, keep_if, All,
}
use rustyalias.Net.{Ipv4Addr, Ipv6Addr}
use rustyalias.Wire.{type_a, type_ns, type_txt, type_aaaa, type_any}
use rustyalias.Response.{Rr}
use rustyalias.Response.Contents.{
  a_records, aaaa_records, host_records, ns_records, text_records, matching,
}

pub matching-append :
    (qtype : ℕ) (rs ss : List Rr)
    → matching qtype (rs ++ ss) ≡ matching qtype rs ++ matching qtype ss
unfolding matching
matching-append qtype [] ss = refl
matching-append qtype (r ∷ rs) ss =
    rw (matching-append qtype rs ss) (choose (qtype == r.typ || qtype == type_any))
  where
    choose :
        (b : Bool)
        → (if b
            then r ∷ (matching qtype rs ++ matching qtype ss)
            else matching qtype rs ++ matching qtype ss)
          ≡ (if b then r ∷ matching qtype rs else matching qtype rs) ++ matching qtype ss
    choose true = refl
    choose false = refl

-- The records of one type, where the question asks for it.
abbrev pub wanted : ℕ → ℕ → List Rr → List Rr
wanted qtype typ rs = if qtype == typ || qtype == type_any then rs else []

-- The records have the type.
abbrev pub HasType : ℕ → List Rr → Type 0
HasType typ rs = All (λ r. r.typ ≡ typ) rs

pub matching-wanted :
    (qtype typ : ℕ) (rs : List Rr) → HasType typ rs → matching qtype rs ≡ wanted qtype typ rs
unfolding matching
matching-wanted qtype typ [] h =
    if-either (λ rs. ◌≡◌ {A = List Rr} [] rs) (qtype == typ || qtype == type_any) [] [] refl refl
matching-wanted qtype typ (r ∷ rs) (h, hs) =
    simp (h, matching-wanted qtype typ rs hs) (choose (qtype == typ || qtype == type_any))
  where
    choose :
        (b : Bool)
        → (if b then r ∷ (if b then rs else []) else (if b then rs else []))
          ≡ (if b then r ∷ rs else [])
    choose true = refl
    choose false = refl

pub a_records-HasType : (v4 : Option Ipv4Addr) → HasType type_a (a_records v4)
a_records-HasType none = tt
a_records-HasType (some ip) = (refl, tt)

pub aaaa_records-HasType : (v6 : Option Ipv6Addr) → HasType type_aaaa (aaaa_records v6)
aaaa_records-HasType none = tt
aaaa_records-HasType (some ip) = (refl, tt)

pub text_records-HasType : (txt : Option Bytes) → HasType type_txt (text_records txt)
text_records-HasType none = tt
text_records-HasType (some txt) = (refl, tt)

pub ns_records-HasType : (ns : List Bytes) → HasType type_ns (ns_records ns)
ns_records-HasType [] = tt
ns_records-HasType (n ∷ ns) = (refl, ns_records-HasType ns)

a_records-keep_if :
    (b : Bool) (v4 : Option Ipv4Addr) → (if b then a_records v4 else []) ≡ a_records (keep_if b v4)
a_records-keep_if true v4 = refl
a_records-keep_if false v4 = refl

aaaa_records-keep_if :
    (b : Bool) (v6 : Option Ipv6Addr)
    → (if b then aaaa_records v6 else []) ≡ aaaa_records (keep_if b v6)
aaaa_records-keep_if true v6 = refl
aaaa_records-keep_if false v6 = refl

pub matching-host_records :
    (qtype : ℕ) (v4 : Option Ipv4Addr) (v6 : Option Ipv6Addr)
    → matching qtype (host_records (v4, v6))
      ≡ host_records (
        keep_if (qtype == type_a || qtype == type_any) v4,
        keep_if (qtype == type_aaaa || qtype == type_any) v6,
      )
matching-host_records qtype v4 v6 = rw (
  matching-append qtype (a_records v4) (aaaa_records v6),
  matching-wanted qtype type_a (a_records v4) (a_records-HasType v4),
  matching-wanted qtype type_aaaa (aaaa_records v6) (aaaa_records-HasType v6),
  a_records-keep_if (qtype == type_a || qtype == type_any) v4,
  aaaa_records-keep_if (qtype == type_aaaa || qtype == type_any) v6,
)
