-- ===== src/Mem/Growth.antt =====
-- What a loop over `vader_reset` costs: only the front block of an arena of runtime/vader_mem.c is
-- ever filled.
use native.Mathlib.Nat.{add-zero}
use mathlib.Core.Path.{subst}
use vader_langue.Prelude.{
  ℕ, zero, suc, ◌+◌, ◌≤◌, ◌<◌, ◌≡◌, refl, ap, Option, some, List, [], ◌∷◌, ℤ, pos, arith, length,
  set, get_elem?, ◌>>=◌, get_elem?-set-some, map,
}
use vader_langue.Mem.{Block, Heap, alloc, alloc_in, align, reset, rewind}

-- One round of a server: the arena is reset and two requests of `n` bytes are served.
unfoldable pub round : Heap → ℕ → ℕ → Option Heap
round h a n = reset h a >>= λ h1. alloc h1 (pos n) >>= λ r. alloc r.1 (pos n) >>= λ s. some s.1

unfoldable pub rounds : ℕ → Heap → ℕ → ℕ → Option Heap
rounds zero h a n = some h
rounds (suc k) h a n = round h a n >>= λ h'. rounds k h' a n

-- The heap with other blocks in the arena `a`.
abbrev pub with_blocks : Heap → ℕ → ℕ → List Block → Option ℕ → Heap
with_blocks h m a bs prev = record {
  mallocs = m;
  arenas = set h.arenas a (some (record { blocks = bs; prev = prev }));
  cur = some a;
}

abbrev pub Holds : Heap → ℕ → List Block → Option ℕ → Type 0
Holds h a bs prev = get_elem? h.arenas a ≡ some (some (record { blocks = bs; prev = prev }))

pub reset_lem :
    (h : Heap) (a : ℕ) (bs : List Block) (prev : Option ℕ)
    → Holds h a bs prev
    → reset h a ≡ some (with_blocks h h.mallocs a (map rewind bs) prev)
unfolding reset
reset_lem h a bs prev e = rw e

pub alloc_lem :
    (h : Heap) (a : ℕ) (bs : List Block) (prev : Option ℕ) (n : ℤ)
    → h.cur ≡ some a
    → Holds h a bs prev
    → alloc h n
      ≡ some (
        (alloc_in h.mallocs bs (align n)).0,
        with_blocks h
            (alloc_in h.mallocs bs (align n)).2
            a
            (alloc_in h.mallocs bs (align n)).1
            prev,
      )
unfolding alloc
alloc_lem h a bs prev n c e = rw (c, e)

-- The blocks after one round.
abbrev round_blocks : ℕ → List Block → ℕ → List Block × ℕ
round_blocks m bs sz =
    let (p, bs1, m1) = alloc_in m (map rewind bs) sz in
    let (q, bs2, m2) = alloc_in m1 bs1 sz in (bs2, m2)

-- A round does not fault, and leaves the arena with the blocks computed above.
round_lem :
    (h : Heap) (a n : ℕ) (bs : List Block) (prev : Option ℕ)
    → Holds h a bs prev
    → (h' : Heap) × (round h a n ≡ some h')
      × Holds h' a (round_blocks h.mallocs bs (align (pos n))).0 prev
unfolding round
round_lem h a n bs prev e =
    let sz = align (pos n) in
    let h1 = with_blocks h h.mallocs a (map rewind bs) prev in
    let e1 : Holds h1 a (map rewind bs) prev = get_elem?-set-some h.arenas a _ _ e in
    let r1 = alloc_in h.mallocs (map rewind bs) sz in
    let h2 = with_blocks h1 r1.2 a r1.1 prev in
    let e2 : Holds h2 a r1.1 prev = get_elem?-set-some h1.arenas a _ _ e1 in
    let r2 = alloc_in r1.2 r1.1 sz in
    let h3 = with_blocks h2 r2.2 a r2.1 prev in
    (
      h3,
      rw (reset_lem h a bs prev e, alloc_lem h1 a (map rewind bs) prev (pos n) refl e1)
          (rw (alloc_lem h2 a r1.1 prev (pos n) refl e2)),
      get_elem?-set-some h2.arenas a _ _ e2,
    )

align_mid : (n : ℕ) → 32768 < n → n ≤ 65536 → (32768 < align (pos n)) × (align (pos n) ≤ 65536)
unfolding align
align_mid n h k = ground arith

-- Blocks of the usual size, in front.
abbrev pub Usual : ℕ → List Block → Type 0
Usual k [] = ⊥
Usual k (b ∷ bs) = (b.cap ≡ 65536) × (length bs ≡ k)

length-rewind : (bs : List Block) → length (map rewind bs) ≡ length bs
length-rewind [] = refl
length-rewind (b ∷ bs) = ap suc (length-rewind bs)

round_blocks-Usual :
    (m k sz : ℕ) (bs : List Block)
    → 32768 < sz
    → sz ≤ 65536
    → Usual k bs
    → Usual (k + 1) (round_blocks m bs sz).0
unfolding alloc_in
round_blocks-Usual m k sz [] h h' u = absurd u
round_blocks-Usual m k sz (b ∷ bs) h h' u = ground (arith, length-rewind bs)

-- Every further round of two requests between 32769 and 65536 bytes adds a block to the arena, although
-- the reset emptied the others: after k rounds an arena that began with one block of 65536 bytes in
-- front of j others has k more, so a loop over one scope is not of bounded memory. No round faults.
pub rounds_grow :
    (k : ℕ) (h : Heap) (a n j : ℕ) (bs : List Block) (prev : Option ℕ)
    → 32768 < n
    → n ≤ 65536
    → Holds h a bs prev
    → Usual j bs
    → (h' : Heap) × (bs' : List Block) × (rounds k h a n ≡ some h')
      × Holds h' a bs' prev
      × Usual (j + k) bs'
unfolding rounds
rounds_grow zero h a n j bs prev l u e us = (h, bs, refl, e, rw add-zero us)
rounds_grow (suc k) h a n j bs prev l u e us =
    let (h1, e1, e2) = round_lem h a n bs prev e in
    let (l', u') = align_mid n l u in
    let us1 = round_blocks-Usual h.mallocs j (align (pos n)) bs l' u' us in
    let (h', bs', r, e3, us2) =
      rounds_grow k h1 a n (j + 1) (round_blocks h.mallocs bs (align (pos n))).0 prev l u e2 us1 in
    (h', bs', rw e1 r, e3, subst (λ i. Usual i bs') (omega arith) us2)
