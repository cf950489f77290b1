-- ===== src/Mem/Tests.antt =====
-- Runs of the model of runtime/vader_mem.c, and its theorems at concrete inputs.
use vader_langue.Prelude.{ℕ, ◌+◌, ◌≡◌, refl, some, none, List, [], ◌∷◌, ℤ, pos, negsuc, arith, All}
use vader_langue.Mem.{Heap, Block, align, alloc_in}
use vader_langue.Mem.Alloc.{IsSound, HeadServes, alloc_in-IsSound}
use vader_langue.Mem.Disjoint.{AllApart, alloc_many, alloc_many-AllApart}
use vader_langue.Mem.Growth.{Holds, Usual, rounds, rounds_grow}
use vader_langue.Mem.Scope.{with_scope, with_scope_lem}

align_small : align (pos 1) ≡ 16
unfolding align
align_small = refl

abbrev one_block : List Block
one_block = record { base = 0; used = 65520; cap = 65536 } ∷ []

alloc_in-IsSound_example :
    All IsSound (alloc_in 1 one_block (align (pos 20))).1
    × HeadServes
        (alloc_in 1 one_block (align (pos 20))).0
        20
        (alloc_in 1 one_block (align (pos 20))).1
alloc_in-IsSound_example = alloc_in-IsSound 1 one_block (pos 20) (omega arith) (omega arith)

abbrev sizes : List ℤ
sizes = pos 10 ∷ pos 65536 ∷ negsuc 4 ∷ pos 100000 ∷ []

alloc_many-AllApart_example : AllApart (alloc_many 1 one_block sizes)
alloc_many-AllApart_example =
    alloc_many-AllApart 1 one_block sizes (omega arith) (omega arith) (omega arith) (tt, tt)

abbrev empty : Heap
empty = record { mallocs = 0; arenas = none ∷ []; cur = none }

with_scope_lem_example :
    (m : ℕ) × (with_scope empty sizes
      ≡ some (record { mallocs = m; arenas = none ∷ none ∷ []; cur = none }))
with_scope_lem_example = with_scope_lem empty sizes

abbrev server : Heap
server = record {
  mallocs = 1;
  arenas = some (record { blocks = one_block; prev = none }) ∷ [];
  cur = some 0;
}

rounds_grow_example :
    (h : Heap) × (bs : List Block) × (rounds 3 server 0 40000 ≡ some h)
    × Holds h 0 bs none
    × Usual (0 + 3) bs
rounds_grow_example =
    rounds_grow 3 server 0 40000 0 one_block none (omega arith) (omega arith) refl (refl, refl)
