-- ===== src/Mem.antt =====
-- runtime/vader_mem.c: the arena allocator. A pointer is the block that malloc returned and an offset
-- in it; malloc does not fail and returns a new block each time.
pub mod Alloc
pub mod Disjoint
pub mod Scope
pub mod Growth
mod Tests
use vader_langue.Prelude.{
  ℕ, suc, zero, ◌+◌, ◌-◌, ◌*◌, ◌/◌, ◌%◌, ◌^◌, ◌≡◌, Bool, true, false, Option, none, some, List, [],
  ◌∷◌, ◌++◌, map, Bytes, ℤ, pos, negsuc, ltb, ◌==◌, if◌then◌else◌, int_ltb, to_u64, length,
  get_elem?, set, ◌>>=◌,
}

-- `Block`; `base` names the memory that malloc returned, and `next` is the rest of the list.
pub record Block : Type 0 where
  pub base : ℕ
  pub used : ℕ
  pub cap : ℕ

-- `Arena`; `prev` is the handle of the scope below.
pub record Arena : Type 0 where
  pub blocks : List Block
  pub prev : Option ℕ

-- What the program's memory holds of the allocator: how many times malloc was called for data, the
-- arenas by handle (none for one that was freed), and `g_cur`.
pub record Heap : Type 0 where
  pub mallocs : ℕ
  pub arenas : List (Option Arena)
  pub cur : Option ℕ

pub record Ptr : Type 0 where
  pub base : ℕ
  pub off : ℕ

unfoldable pub block_new : ℕ → ℕ → Block
block_new base min = record { base = base; used = 0; cap = if ltb 65536 min then min else 65536 }

-- `n > 0 ? n : 1`, rounded up to a multiple of 16 in `unsigned long`.
unfoldable pub align : ℤ → ℕ
align (pos n) = ((if ltb 0 n then n else 1) + 15) % 2 ^ 64 / 16 * 16
align (negsuc n) = 16

-- The end of `vader_alloc`: the pointer at the head block's `used`, which grows, in `unsigned long`.
abbrev pub bump : Block → List Block → ℕ → Ptr × List Block
bump b bs sz =
    (record { base = b.base; off = b.used }, record b { used = (b.used + sz) % 2 ^ 64 } ∷ bs)

-- The arena's part of `vader_alloc`: the pointer, the blocks, and the number of mallocs. `fresh` is
-- the name of the next malloc.
unfoldable pub alloc_in : ℕ → List Block → ℕ → Ptr × List Block × ℕ
unfolding block_new
alloc_in fresh [] sz = let (p, bs) = bump (block_new fresh sz) [] sz in (p, bs, fresh + 1)
alloc_in fresh (b ∷ bs) sz =
    if ltb b.cap ((b.used + sz) % 2 ^ 64)
    then (let (p, bs') = bump (block_new fresh sz) (b ∷ bs) sz in (p, bs', fresh + 1))
    else (let (p, bs') = bump b bs sz in (p, bs', fresh))

-- The arena of a handle, if it was not freed.
abbrev pub arena_at : Heap → ℕ → Option Arena
arena_at h a = get_elem? h.arenas a >>= λ o. o

-- `none` is a use of a freed arena.
unfoldable pub alloc : Heap → ℤ → Option (Ptr × Heap)
alloc h n = elim h.cur [
  | none ↦ some (record { base = h.mallocs; off = 0 }, record h { mallocs = h.mallocs + 1 })
  | some a ↦ arena_at h a >>= λ r.
      (let (p, bs, fresh) = alloc_in h.mallocs r.blocks (align n) in
        some (
          p,
          record h { mallocs = fresh; arenas = set h.arenas a (some (record r { blocks = bs })) },
        ))
]

-- The bytes that `vader_realloc` copies from the old pointer.
abbrev pub copied : Option Ptr → ℤ → ℤ → ℕ
copied none oldn newn = 0
copied (some p) oldn newn =
    if int_ltb (pos 0) oldn then to_u64 (if int_ltb oldn newn then oldn else newn) else 0

unfoldable pub realloc : Heap → Option Ptr → ℤ → ℤ → Option (Ptr × ℕ × Heap)
realloc h old oldn newn = alloc h newn >>= λ r. some (r.0, copied old oldn newn, r.1)

-- The new pointer and the bytes that are copied to it, the NUL included. NULL is read as "".
unfoldable pub strdup : Heap → Option Bytes → Option (Ptr × Bytes × Heap)
strdup h s =
    let text : Bytes = elim s [ none ↦ [] | some t ↦ t ] in
    alloc h (pos (length text + 1)) >>= λ r. some (r.0, text ++ 0 ∷ [], r.1)

-- The handle is the new arena's place in the list.
unfoldable pub scope : Heap → ℕ × Heap
scope h = (
  length h.arenas,
  record h {
    arenas = h.arenas ++ some (record { blocks = []; prev = h.cur }) ∷ [];
    cur = some (length h.arenas);
  },
)

abbrev pub rewind : Block → Block
rewind b = record b { used = 0 }

-- A NULL arena is left out by the type; `none` is a use of a freed arena.
unfoldable pub reset : Heap → ℕ → Option Heap
reset h a = arena_at h a >>= λ r. some (record h {
  arenas = set h.arenas a (some (record r { blocks = map rewind r.blocks }));
  cur = some a;
})

-- `g_cur == a`
abbrev pub is_cur : Option ℕ → ℕ → Bool
is_cur none a = false
is_cur (some c) a = c == a

unfoldable pub release : Heap → ℕ → Option Heap
release h a = arena_at h a >>= λ r.
    some (record h { arenas = set h.arenas a none; cur = if is_cur h.cur a then r.prev else h.cur })
