-- ===== src/Dnssec/Bitmap/Blocks.antt =====
-- The blocks of a bitmap as RFC 4034, section 4.1.2, describes them: window numbers that ascend,
-- and 1 to 32 bytes each of which the last is not zero.
use rustyalias.Common.{
  ℕ, ◌+◌, ◌-◌, ◌/◌, ◌%◌, ◌≤◌, ◌<◌, ◌≡◌, refl, sym, arith, Bool, true, false, ◌&&◌, ◌||◌, List, [],
  ◌∷◌, ◌++◌, append-nil, append_assoc, Bytes, length, get_or, ◌==◌,
}
use rustyalias.Dnssec.Bitmap.Bits.{bit_at}

pub record Block : Type 0 where
  pub number : ℕ
  pub bytes : Bytes

abbrev pub block_bytes : Block → Bytes
block_bytes b = b.number ∷ length b.bytes ∷ b.bytes

unfoldable pub blocks_bytes : List Block → Bytes
blocks_bytes [] = []
blocks_bytes (b ∷ bs) = block_bytes b ++ blocks_bytes bs

-- The type `t` stands in a block: its window is the block's, and its bit is set.
abbrev pub in_block : ℕ → Block → Bool
in_block t b = b.number == t / 256 && bit_at b.bytes (t % 256)

unfoldable pub in_blocks : ℕ → List Block → Bool
in_blocks t [] = false
in_blocks t (b ∷ bs) = in_block t b || in_blocks t bs

pub record IsBlock (b : Block) : Type 0 where
  pub not_empty : 1 ≤ length b.bytes
  pub at_most_32 : length b.bytes ≤ 32
  pub last_used : 1 ≤ get_or b.bytes (length b.bytes - 1) 0

-- The numbers ascend, from `lo` and below `hi`.
abbrev pub AreBlocks : ℕ → ℕ → List Block → Type 0
AreBlocks lo hi [] = lo ≤ hi
AreBlocks lo hi (b ∷ bs) = (lo ≤ b.number) × IsBlock b × AreBlocks (b.number + 1) hi bs

pub blocks_bytes-append :
    (bs : List Block) (b : Block) → blocks_bytes (bs ++ (b ∷ [])) ≡ blocks_bytes bs ++ block_bytes b
unfolding blocks_bytes
blocks_bytes-append [] b = append-nil (block_bytes b)
blocks_bytes-append (c ∷ bs) b =
    rw (blocks_bytes-append bs b)
      (sym (append_assoc (block_bytes c) (blocks_bytes bs) (block_bytes b)))

or_false : (a : Bool) → (a || false) ≡ a
or_false true = refl
or_false false = refl

pub or_assoc : (a b c : Bool) → (a || (b || c)) ≡ ((a || b) || c)
or_assoc true b c = refl
or_assoc false b c = refl

pub in_blocks-append :
    (t : ℕ) (bs : List Block) (b : Block)
    → in_blocks t (bs ++ (b ∷ [])) ≡ (in_blocks t bs || in_block t b)
unfolding in_blocks
in_blocks-append t [] b = or_false (in_block t b)
in_blocks-append t (c ∷ bs) b =
    rw (in_blocks-append t bs b) (or_assoc (in_block t c) (in_blocks t bs) (in_block t b))

pub append-AreBlocks :
    (lo cur hi : ℕ) (bs : List Block) (b : Block)
    → AreBlocks lo cur bs
    → b.number ≡ cur
    → IsBlock b
    → cur < hi
    → AreBlocks lo hi (bs ++ (b ∷ []))
append-AreBlocks lo cur hi [] b h e k lt = (omega arith, k, omega arith)
append-AreBlocks lo cur hi (c ∷ bs) b (l, kc, h) e k lt =
    (l, kc, append-AreBlocks (c.number + 1) cur hi bs b h e k lt)
