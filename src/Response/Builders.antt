-- ===== src/Response/Builders.antt =====
-- The steps that add records to a message leave its bytes alone, and do not panic.
use rustyalias.Common.{
  ℕ, ◌-◌, ◌≡◌, refl, ◌∙◌, arith, Bool, true, false, some, List, [], ◌∷◌, Bytes, take, drop,
  if◌then◌else◌, Outcome, ret, slice_in,
}
use rustyalias.Wire.{question_section_end}
use rustyalias.Wire.Question.{question_section_end_bounds}
use rustyalias.Wire.Zones.{name_in_bailiwick_lem}
use rustyalias.Dnssec.Bitmap.{nsec_types}
use rustyalias.Dnssec.Bitmap.Returns.{nsec_rdata-Returns}
use rustyalias.Dnssec.Key.{Platform}
use rustyalias.Response.{
  ZoneParams, Owner, question, Msg, add_rr, add_ns, add_ns_names, add_a, add_aaaa, add_glue,
  add_glue_names, add_in_bailiwick_glue,
}
use rustyalias.Response.Build.{add_nsec}

-- Adding a record leaves the bytes written so far alone.
pub add_rr-buf :
    (m : Msg) (c : ℕ) (o : Owner) (t l : ℕ) (r : Bytes) → (add_rr m c o t l r).buf ≡ m.buf
unfolding add_rr
add_rr-buf m c o t l r = ground arith

pub add_ns_names-buf : (c : ℕ) (ns : List Bytes) (m : Msg) → (add_ns_names m c ns).buf ≡ m.buf
unfolding add_ns_names add_ns
add_ns_names-buf c [] m = refl
add_ns_names-buf c (n ∷ ns) m =
    add_ns_names-buf c ns (add_ns m c question n) ∙ add_rr-buf m c question _ _ _

-- A step that may panic returns a message with the same bytes.
abbrev pub Keeps : Msg → Outcome Msg → Type 0
Keeps m o = (m' : Msg) × (o ≡ ret m') × (m'.buf ≡ m.buf)

module _ (P : Platform) (params : ZoneParams P) where
  add_glue-buf : (m : Msg) (n : Bytes) → (add_glue P m n params).buf ≡ m.buf
  unfolding add_a add_aaaa add_rr
  add_glue-buf m n = ground arith

  add_glue_names_step :
      (ns : List Bytes) (m : Msg) (n : Bytes) (inside : Bool)
      → ((m1 : Msg) → Keeps m1 (add_glue_names P m1 ns params))
      → Keeps m (add_glue_names P (if inside then add_glue P m n params else m) ns params)
  add_glue_names_step ns m n true ih =
      let (m', e, b) = ih (add_glue P m n params) in (m', e, b ∙ add_glue-buf m n)
  add_glue_names_step ns m n false ih = ih m

  add_glue_names-Keeps : (ns : List Bytes) (m : Msg) → Keeps m (add_glue_names P m ns params)
  unfolding add_glue_names
  add_glue_names-Keeps [] m = (m, refl, refl)
  add_glue_names-Keeps (n ∷ ns) m =
      rw (name_in_bailiwick_lem n params.zone)
        (add_glue_names_step ns m n _ (add_glue_names-Keeps ns))

  pub add_in_bailiwick_glue-Keeps : (m : Msg) → Keeps m (add_in_bailiwick_glue P m params)
  unfolding add_in_bailiwick_glue
  add_in_bailiwick_glue-Keeps m = add_glue_names-Keeps params.ns_names m

  pub add_nsec-Keeps :
      (m : Msg) (c : ℕ) (query : Bytes) {end : ℕ} (types : List ℕ)
      → question_section_end query ≡ some end
      → Keeps m (add_nsec P m c query end types params)
  unfolding add_nsec
  add_nsec-Keeps m c query {end} types e =
      let (lo, hi) = question_section_end_bounds query e in
      let q = take (end - 4 - 12) (drop 12 query) in
      let (rdata, f) = nsec_rdata-Returns q (nsec_types types) in
      rw (slice_in query 12 (end - 4) (omega arith) (omega arith), f)
        (_, refl, add_rr-buf m c _ _ _ rdata)
