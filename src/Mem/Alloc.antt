-- ===== src/Mem/Alloc.antt =====
-- One allocation of runtime/vader_mem.c: inside its block, aligned, and large enough.
use vader_langue.Prelude.{
  ℕ, ◌+◌, ◌%◌, ◌^◌, ◌≤◌, ◌<◌, ◌≡◌, List, [], ◌∷◌, ℤ, pos, negsuc, arith, All,
}
use vader_langue.Mem.{Block, Ptr, alloc_in, align}

-- A block is filled up to a multiple of 16 within its capacity. Capacities stay below 2^62, which
-- malloc cannot exceed.
pub record IsSound (b : Block) : Type 0 where
  pub within : b.used ≤ b.cap
  pub aligned : b.used % 16 ≡ 0
  pub small : b.cap ≤ 2 ^ 62

-- What malloc can be asked for.
abbrev pub Modest : ℤ → Type 0
Modest (pos n) = n ≤ 2 ^ 62
Modest (negsuc n) = Unit

-- The bytes that a request may use: those it asks for.
abbrev pub asked : ℤ → ℕ
asked (pos n) = n
asked (negsuc n) = 0

-- The block that serves a request of `n` bytes.
pub record Serves (p : Ptr) (n : ℕ) (b : Block) : Type 0 where
  pub same : b.base ≡ p.base
  pub starts : p.off % 16 ≡ 0
  pub fits : p.off + n ≤ b.used
  pub distinct : p.off < b.used
  pub tight : b.used ≤ p.off + n + 16

abbrev pub HeadServes : Ptr → ℕ → List Block → Type 0
HeadServes p n [] = ⊥
HeadServes p n (b ∷ bs) = Serves p n b

-- A request is rounded up to a positive multiple of 16, by at most 16 bytes.
pub record IsRounded (n sz : ℕ) : Type 0 where
  pub enough : n ≤ sz
  pub some_bytes : 0 < sz
  pub close : sz ≤ n + 16
  pub even : sz % 16 ≡ 0
  pub bounded : sz ≤ 2 ^ 62

pub align-IsRounded : (n : ℤ) → Modest n → IsRounded (asked n) (align n)
unfolding align
align-IsRounded (pos n) h = ground arith
align-IsRounded (negsuc n) h = ground arith

alloc_in-Rounded :
    (fresh : ℕ) (bs : List Block) (n sz : ℕ)
    → IsRounded n sz
    → All IsSound bs
    → All IsSound (alloc_in fresh bs sz).1
      × HeadServes (alloc_in fresh bs sz).0 n (alloc_in fresh bs sz).1
unfolding alloc_in
alloc_in-Rounded fresh [] n sz h v = ground arith
alloc_in-Rounded fresh (b ∷ bs) n sz h v = ground arith

-- A request of at most 2^62 bytes, a negative one included, keeps every block sound, and is served
-- from the front block: the region starts at a multiple of 16, at least one byte and all that is asked
-- for lie below the block's new fill mark, which is within its capacity, a multiple of 16, and at
-- most 16 bytes beyond what is asked for.
pub alloc_in-IsSound :
    (fresh : ℕ) (bs : List Block) (n : ℤ)
    → Modest n
    → All IsSound bs
    → All IsSound (alloc_in fresh bs (align n)).1
      × HeadServes (alloc_in fresh bs (align n)).0 (asked n) (alloc_in fresh bs (align n)).1
alloc_in-IsSound fresh bs n h v =
    alloc_in-Rounded fresh bs (asked n) (align n) (align-IsRounded n h) v
