-- ===== src/Dnssec/Bitmap/Means.antt =====
-- The bitmap that `type_bitmap` writes says the types it was given, and no other.
use rustyalias.Common.{
  ℕ, ◌/◌, ◌%◌, ◌<◌, ◌≡◌, refl, ◌∙◌, arith, Bool, false, Option, some, List, [], ◌∷◌, ◌++◌, Bytes,
  any, All, ◌==◌, ret, ◌>>=◌, is_empty,
}
use rustyalias.Dnssec.Bitmap.{Window, sort_types, dedup, start, add_types, flush_last, type_bitmap}
use rustyalias.Dnssec.Bitmap.Blocks.{
  Block, blocks_bytes, in_blocks, AreBlocks, in_blocks-append, append-AreBlocks,
}
use rustyalias.Dnssec.Bitmap.Fill.{closed, closed-IsBlock, flush-closed, closed-bit}
use rustyalias.Dnssec.Bitmap.Correct.{
  IsOpen, Filled, add_type-IsOpen, add_types-Filled, start-IsReady, with_type,
}
use rustyalias.Dnssec.Bitmap.Sorting.{
  Sorted, IsType, dedup-sort_types-Sorted, any-dedup-sort_types, is_empty-dedup-sort_types,
}

-- The bytes `out` are the blocks of a bitmap that says the types for which `seen` is true.
abbrev pub Says : Bytes → (ℕ → Bool) → Type 0
Says out seen =
    (bs : List Block) × (out ≡ blocks_bytes bs)
    × AreBlocks 0 256 bs
    × ((t : ℕ) → IsType t → in_blocks t bs ≡ seen t)

flush_last-Says :
    (s : Window) (o : Option ℕ) (w : ℕ) (bs : List Block) (seen : ℕ → Bool)
    → o ≡ some w
    → w < 256
    → IsOpen s w bs seen
    → (out : Bytes) × (flush_last s o ≡ ret out) × Says out seen
flush_last-Says s o w bs seen is_w lt h =
    let b = closed w s.bits s.max_byte in
    rw (is_w, h.ready.written, flush-closed bs w s.bits s.max_byte h.ready.fill)
      (
        _,
        refl,
        (
          bs ++ (b ∷ []),
          refl,
          append-AreBlocks 0 w 256 bs b h.ready.ascending refl
              (closed-IsBlock s.bits w s.max_byte h.ready.fill h.last_used) lt,
          λ t t_lt. rw (
            in_blocks-append t bs b,
            closed-bit s.bits w s.max_byte (t % 256) h.ready.fill,
            h.ready.says t t_lt,
          ),
        ),
      )

first-Filled : (t : ℕ) (ts : List ℕ) → Sorted 0 (t ∷ ts) → Filled start (t ∷ ts) (λ u. false)
unfolding add_types
first-Filled t ts (le, lt, sorted) =
    let w = t / 256 % 256 in
    let (s1, added, open1) =
      add_type-IsOpen start start t [] (λ u. false) lt refl (start-IsReady w) in
    let (s2, rest, w2, bs, lt2, open2) =
      add_types-Filled ts s1 t w [] (with_type (λ u. false) t) sorted (omega arith) (omega arith)
        open1 in
    (s2, rw added rest, w2, bs, lt2, open2)

add_types-Says :
    (ts : List ℕ)
    → Sorted 0 ts
    → is_empty ts ≡ false
    → (out : Bytes) × ((add_types start ts >>= λ s. flush_last s s.window) ≡ ret out)
      × Says out (λ t. any (λ u. u == t) ts)
add_types-Says [] h n = cc
add_types-Says (t ∷ ts) h n =
    let (s, added, w, bs, lt, open1) = first-Filled t ts h in
    rw added (flush_last-Says s s.window w bs _ open1.window_eq lt open1)

-- For a list of types that is not empty, each a u16, `type_bitmap` returns blocks in ascending order
-- of their windows, each of 1 to 32 bytes of which the last is not zero, and the bit of a type is set
-- in them exactly when the type is in the list.
pub type_bitmap-Says :
    (first : ℕ) (types : List ℕ)
    → All IsType (first ∷ types)
    → (out : Bytes) × (type_bitmap (first ∷ types) ≡ ret out)
      × Says out (λ t. any (λ u. u == t) (first ∷ types))
unfolding type_bitmap
type_bitmap-Says first types h =
    let sorted = dedup (sort_types (first ∷ types)) in
    let not_empty = is_empty-dedup-sort_types first types in
    let (out, e, (bs, is_out, blocks, says)) =
      add_types-Says sorted (dedup-sort_types-Sorted (first ∷ types) h) not_empty in
    (
      out,
      rw (not_empty, e),
      (bs, is_out, blocks, λ t lt. says t lt ∙ any-dedup-sort_types (λ u. u == t) (first ∷ types)),
    )
