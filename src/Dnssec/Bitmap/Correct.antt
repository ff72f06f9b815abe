-- ===== src/Dnssec/Bitmap/Correct.antt =====
-- What the loop of `type_bitmap` keeps: the blocks that are written and the window that is open
-- together say which types were seen.
use rustyalias.Common.{
  ℕ, ◌-◌, ◌/◌, ◌%◌, ◌^◌, ◌≤◌, ◌<◌, ◌≡◌, refl, sym, ◌∙◌, arith, inl, inr, Bool, false, ◌&&◌, ◌||◌,
  Option, some, List, [], ◌∷◌, ◌++◌, Bytes, length, any, get_or, max, ◌==◌, ==_iff, Bool-cases, ret,
  ◌>>=◌, IsByte, All, index, store, bit_or, index_in, store_in, Outcome,
}
use rustyalias.Dnssec.Bitmap.{Window, switch_from, switch_window, add_type, add_types, start}
use rustyalias.Dnssec.Bitmap.Bits.{bit_at, byte_with, with_bit, with_bit-bit}
use rustyalias.Dnssec.Bitmap.Sorting.{Sorted}
use rustyalias.Dnssec.Bitmap.Blocks.{
  Block, blocks_bytes, in_blocks, AreBlocks, in_blocks-append, append-AreBlocks, or_assoc,
}
use rustyalias.Dnssec.Bitmap.Fill.{
  IsFill, Ends, no_bits-IsFill, no_bits-bit, with_bit-IsFill, with_bit-last, closed, closed-bit,
  closed-IsBlock, flush-closed,
}

-- What is known of the window `w` before a type is put into it; `seen` says which types came.
pub record IsReady (s : Window) (w : ℕ) (bs : List Block) (seen : ℕ → Bool) : Type 0 where
  pub written : s.out ≡ blocks_bytes bs
  pub ascending : AreBlocks 0 w bs
  pub fill : IsFill s.bits s.max_byte
  pub ends : Ends s.bits s.max_byte
  pub says :
      (t : ℕ) → t < 65536 → seen t ≡ (in_blocks t bs || (w == t / 256 && bit_at s.bits (t % 256)))

-- The same after a type.
pub record IsOpen (s : Window) (w : ℕ) (bs : List Block) (seen : ℕ → Bool) : Type 0 where
  pub ready : IsReady s w bs seen
  pub window_eq : s.window ≡ some w
  pub last_used : 1 ≤ get_or s.bits s.max_byte 0

abbrev pub with_type : (ℕ → Bool) → ℕ → ℕ → Bool
with_type seen typ t = seen t || typ == t

same_type : (typ t : ℕ) → (typ / 256 == t / 256 && typ % 256 == t % 256) ≡ (typ == t)
same_type typ t = ground arith

either_bit : (p x y q z : Bool) → (x && y) ≡ z → (p || (x && (y || q))) ≡ ((p || (x && q)) || z)
either_bit p x y q z e = ground arith

ready-says :
    (bs : List Block) (bits : Bytes) (w typ t : ℕ)
    → length bits ≡ 32
    → All IsByte bits
    → w ≡ typ / 256
    → (in_blocks t bs || (w == t / 256 && bit_at (with_bit bits (typ % 256)) (t % 256)))
      ≡ ((in_blocks t bs || (w == t / 256 && bit_at bits (t % 256))) || typ == t)
ready-says bs bits w typ t l h e =
    let at_bit = with_bit-bit bits (t % 256) (typ % 256) l h (omega arith) in
    rw at_bit (
      either_bit (in_blocks t bs) (w == t / 256) (typ % 256 == t % 256) (bit_at bits (t % 256))
        (typ == t) (rw e (same_type typ t)))

-- The store of a type's bit.
put_type : Window → ℕ → ℕ → Outcome Window
put_type s w typ = do
  byte ← index s.bits (typ % 256 / 8)
  bits ← store s.bits (typ % 256 / 8) (bit_or byte (2 ^ (7 - typ % 256 % 8)))
  ret (record s { window = some w; bits = bits; max_byte = max s.max_byte (typ % 256 / 8) })

put_type-IsOpen :
    (s : Window) (w typ : ℕ) (bs : List Block) (seen : ℕ → Bool)
    → IsReady s w bs seen
    → w ≡ typ / 256
    → (s' : Window) × (put_type s w typ ≡ ret s') × IsOpen s' w bs (with_type seen typ)
unfolding put_type
put_type-IsOpen s w typ bs seen r e =
    let bit = typ % 256 in
    let lt : bit < 256 = omega arith in
    let l = r.fill.bits_length in
    let last = with_bit-last s.bits s.max_byte bit r.fill r.ends lt in
    rw
      (
        index_in s.bits (bit / 8) 0 (omega arith),
        store_in s.bits (bit / 8) (byte_with s.bits bit) (omega arith),
      )
      (
        _,
        refl,
        record {
          ready = record {
            written = r.written;
            ascending = r.ascending;
            fill = with_bit-IsFill s.bits s.max_byte bit r.fill lt;
            ends = inl last;
            says = λ t h. rw (r.says t h) (sym (ready-says bs s.bits w typ t l r.fill.are_bytes e));
          };
          window_eq = refl;
          last_used = last;
        },
      )

nothing_open : (a b : Bool) → a ≡ (a || (b && false))
nothing_open a b = ground arith

-- A type of a later window closes the one that is open.
switch_from-IsReady :
    (s : Window) (o : Option ℕ) (cur w : ℕ) (bs : List Block) (seen : ℕ → Bool)
    → o ≡ some cur
    → IsOpen s cur bs seen
    → cur ≤ w
    → (s' : Window) × (switch_from s w o ≡ ret s') × (bs' : List Block) × IsReady s' w bs' seen
switch_from-IsReady s o cur w bs seen is_cur h le = rw is_cur (elim (Bool-cases (cur == w)) [
  | inl same ↦ let e : cur ≡ w = (==_iff cur w).0 same in rw same (s, refl, bs, rw e at h.ready)
  | inr new ↦
      let ne : cur < w = ground arith in
      let bs' = bs ++ (closed cur s.bits s.max_byte ∷ []) in
      rw (new, h.ready.written, flush-closed bs cur s.bits s.max_byte h.ready.fill)
        (
          _,
          refl,
          bs',
          record {
            written = refl;
            ascending =
                append-AreBlocks 0 cur w bs (closed cur s.bits s.max_byte) h.ready.ascending refl
                  (closed-IsBlock s.bits cur s.max_byte h.ready.fill h.last_used) ne;
            fill = no_bits-IsFill;
            ends = inr refl;
            says = λ t lt.
                rw
                  (
                    h.ready.says t lt,
                    in_blocks-append t bs (closed cur s.bits s.max_byte),
                    closed-bit s.bits cur s.max_byte (t % 256) h.ready.fill,
                    no_bits-bit (t % 256),
                  )
                  (nothing_open (in_blocks t bs || (cur == t / 256 && bit_at s.bits (t % 256)))
                    (w == t / 256));
          },
        )
])

-- The first type finds nothing open.
pub start-IsReady : (w : ℕ) → IsReady start w [] (λ t. false)
unfolding blocks_bytes in_blocks
start-IsReady w = record {
  written = refl;
  ascending = omega arith;
  fill = no_bits-IsFill;
  ends = inr refl;
  says = λ t lt. rw (no_bits-bit (t % 256)) (nothing_open false (w == t / 256));
}

pub add_type-IsOpen :
    (s s1 : Window) (typ : ℕ) (bs : List Block) (seen : ℕ → Bool)
    → typ < 65536
    → switch_from s (typ / 256 % 256) s.window ≡ ret s1
    → IsReady s1 (typ / 256 % 256) bs seen
    → (s' : Window) × (add_type s typ ≡ ret s')
      × IsOpen s' (typ / 256 % 256) bs (with_type seen typ)
unfolding add_type switch_window put_type
add_type-IsOpen s s1 typ bs seen lt e h =
    rw e (put_type-IsOpen s1 (typ / 256 % 256) typ bs seen h (omega arith))

abbrev pub with_types : (ℕ → Bool) → List ℕ → ℕ → Bool
with_types seen ts t = seen t || any (λ u. u == t) ts

abbrev pub Filled : Window → List ℕ → (ℕ → Bool) → Type 0
Filled s ts seen =
    (s' : Window) × (add_types s ts ≡ ret s')
    × (w : ℕ) × (bs : List Block) × (w < 256)
    × IsOpen s' w bs (with_types seen ts)

same_seen :
    (s : Window) (w : ℕ) (bs : List Block) (f g : ℕ → Bool)
    → ((t : ℕ) → f t ≡ g t)
    → IsOpen s w bs f
    → IsOpen s w bs g
same_seen s w bs f g e h = record {
  ready = record {
    written = h.ready.written;
    ascending = h.ready.ascending;
    fill = h.ready.fill;
    ends = h.ready.ends;
    says = λ t lt. sym (e t) ∙ h.ready.says t lt;
  };
  window_eq = h.window_eq;
  last_used = h.last_used;
}

or_nothing : (a : Bool) → a ≡ (a || false)
or_nothing a = ground arith

pub add_types-Filled :
    (ts : List ℕ) (s : Window) (lo w : ℕ) (bs : List Block) (seen : ℕ → Bool)
    → Sorted lo ts
    → w ≡ lo / 256
    → w < 256
    → IsOpen s w bs seen
    → Filled s ts seen
unfolding add_types
add_types-Filled [] s lo w bs seen sorted e lt h =
    (s, refl, w, bs, lt, same_seen s w bs seen (with_types seen []) (λ t. or_nothing (seen t)) h)
add_types-Filled (t ∷ ts) s lo w bs seen (le, t_lt, sorted) e lt h =
    let (s1, switched, bs1, ready) =
      switch_from-IsReady s s.window w (t / 256 % 256) bs seen h.window_eq h (omega arith) in
    let (s2, added, open2) = add_type-IsOpen s s1 t bs1 seen t_lt switched ready in
    let (s3, rest, w3, bs3, lt3, open3) =
      add_types-Filled ts s2 t (t / 256 % 256) bs1 (with_type seen t) sorted (omega arith)
        (omega arith) open2 in
    (
      s3,
      rw added rest,
      w3,
      bs3,
      lt3,
      same_seen s3 w3 bs3 (with_types (with_type seen t) ts) (with_types seen (t ∷ ts))
          (λ u. sym (or_assoc (seen u) (t == u) (any (λ v. v == u) ts))) open3,
    )
