-- ===== src/Mem/Disjoint.antt =====
-- Memory that an arena of runtime/vader_mem.c hands out is handed out once.
use native.Mathlib.Decide.{ℕ_discrete}
use vader_langue.Prelude.{
  sym, refl, ℕ, ◌+◌, ◌%◌, ◌^◌, Bool-cases, ◌≤◌, ◌<◌, ◌≡◌, ◌≢◌, ◌⊎◌, inl, inr, List, [], ◌∷◌, ℤ,
  arith, All, ltb,
}
use vader_langue.Mem.{Block, Ptr, alloc_in, align, block_new}
use vader_langue.Mem.Alloc.{Modest, IsSound, align-IsRounded, alloc_in-IsSound}

-- The bytes that one allocation may use.
pub record Region : Type 0 where
  pub base : ℕ
  pub off : ℕ
  pub size : ℕ

abbrev pub region : Ptr → ℕ → Region
region p sz = record { base = p.base; off = p.off; size = sz }

-- The regions of a sequence of allocations in one arena.
unfoldable pub alloc_many : ℕ → List Block → List ℤ → List Region
alloc_many fresh bs [] = []
alloc_many fresh bs (n ∷ ns) =
    let (p, bs', fresh') = alloc_in fresh bs (align n) in
    region p (align n) ∷ alloc_many fresh' bs' ns

-- No byte belongs to both.
abbrev pub Apart : Region → Region → Type 0
Apart r s = (r.base ≢ s.base) ⊎ ((r.off + r.size ≤ s.off) ⊎ (s.off + s.size ≤ r.off))

abbrev pub AllApart : List Region → Type 0
AllApart [] = Unit
AllApart (r ∷ rs) = All (Apart r) rs × AllApart rs

-- Every block's memory came from an earlier malloc, and no two blocks share theirs.
abbrev pub Older : ℕ → List Block → Type 0
Older fresh = All (λ b. b.base < fresh)

abbrev pub OwnBases : List Block → Type 0
OwnBases [] = Unit
OwnBases (b ∷ bs) = All (λ c. c.base ≢ b.base) bs × OwnBases bs

-- The region was handed out: its malloc is past, and its block is filled beyond it.
abbrev Taken : ℕ → List Block → Region → Type 0
Taken fresh bs r = (r.base < fresh) × All (λ b. b.base ≡ r.base → r.off + r.size ≤ b.used) bs

Older-ne : (fresh : ℕ) (bs : List Block) → Older fresh bs → All (λ c. c.base ≢ fresh) bs
Older-ne fresh [] h = tt
Older-ne fresh (b ∷ bs) h = (λ e. omega (arith, h.0), Older-ne fresh bs h.1)

Older-suc : (fresh : ℕ) (bs : List Block) → Older fresh bs → Older (fresh + 1) bs
Older-suc fresh [] h = tt
Older-suc fresh (b ∷ bs) h = (omega (arith, h.0), Older-suc fresh bs h.1)

-- No block but its own says anything of a region.
vacuous :
    (bs : List Block) (r : Region)
    → All (λ c. c.base ≢ r.base) bs
    → All (λ b. b.base ≡ r.base → r.off + r.size ≤ b.used) bs
vacuous [] r h = tt
vacuous (b ∷ bs) r h = (λ e. absurd (h.0 e), vacuous bs r h.1)

-- The two ways in which `alloc_in` ends: a new block in front, or the front block filled further.
abbrev Result : Type 0
Result = Ptr × List Block × ℕ

abbrev in_new : ℕ → List Block → ℕ → Result
in_new fresh bs sz = (
  record { base = fresh; off = 0 },
  record (block_new fresh sz) { used = 0 + sz } ∷ bs,
  fresh + 1,
)

abbrev in_front : ℕ → Block → List Block → ℕ → Result
in_front fresh b bs sz =
    (record { base = b.base; off = b.used }, record b { used = b.used + sz } ∷ bs, fresh)

module _ (sz : ℕ) (small : sz ≤ 2 ^ 62) where
  alloc_in-nil : (fresh : ℕ) → alloc_in fresh [] sz ≡ in_new fresh [] sz
  unfolding alloc_in block_new
  alloc_in-nil fresh = let new : (0 + sz) % 2 ^ 64 ≡ 0 + sz = omega arith in rw new refl

  -- The sum does not wrap around in a sound block.
  alloc_in-cases :
      (fresh : ℕ) (b : Block) (bs : List Block)
      → IsSound b
      → (alloc_in fresh (b ∷ bs) sz ≡ in_new fresh (b ∷ bs) sz)
        ⊎ (alloc_in fresh (b ∷ bs) sz ≡ in_front fresh b bs sz)
  unfolding alloc_in block_new
  alloc_in-cases fresh b bs v =
      let fits : (b.used + sz) % 2 ^ 64 ≡ b.used + sz = omega (arith, v.within, v.small) in
      let new : (0 + sz) % 2 ^ 64 ≡ 0 + sz = omega arith in
      elim (Bool-cases (ltb b.cap ((b.used + sz) % 2 ^ 64))) [
        | inl e ↦ inl (rw (e, new) refl)
        | inr e ↦ inr (rw (e, fits) refl)
      ]

-- What holds after an allocation, whatever was there before.
abbrev StepFacts : ℕ → Result → Type 0
StepFacts sz (p, bs, fresh) = Older fresh bs × OwnBases bs × Taken fresh bs (region p sz)

in_new-facts :
    (fresh : ℕ) (bs : List Block) (sz : ℕ)
    → Older fresh bs
    → OwnBases bs
    → StepFacts sz (in_new fresh bs sz)
unfolding block_new
in_new-facts fresh bs sz h o =
    let other = Older-ne fresh bs h in
    (
      (omega arith, Older-suc fresh bs h),
      (other, o),
      (
        omega arith,
        ((λ e. omega arith), vacuous bs (region (record { base = fresh; off = 0 }) sz) other),
      ),
    )

in_front-facts :
    (fresh : ℕ) (b : Block) (bs : List Block) (sz : ℕ)
    → Older fresh (b ∷ bs)
    → OwnBases (b ∷ bs)
    → StepFacts sz (in_front fresh b bs sz)
in_front-facts fresh b bs sz h o = (
  h,
  o,
  (h.0, ((λ e. omega arith), vacuous bs (region (record { base = b.base; off = b.used }) sz) o.0)),
)

alloc_in-facts :
    (fresh : ℕ) (bs : List Block) (sz : ℕ)
    → sz ≤ 2 ^ 62
    → All IsSound bs
    → Older fresh bs
    → OwnBases bs
    → StepFacts sz (alloc_in fresh bs sz)
alloc_in-facts fresh [] sz small v h o =
    rw (alloc_in-nil sz small fresh) (in_new-facts fresh [] sz h o)
alloc_in-facts fresh (b ∷ bs) sz small v h o = elim (alloc_in-cases sz small fresh b bs v.0) [
  | inl e ↦ rw e (in_new-facts fresh (b ∷ bs) sz h o)
  | inr e ↦ rw e (in_front-facts fresh b bs sz h o)
]

-- A region taken earlier stays taken, and the next allocation is apart from it.
abbrev StaysApart : Region → ℕ → Result → Type 0
StaysApart r sz (p, bs, fresh) = Apart r (region p sz) × Taken fresh bs r

in_new-apart :
    (fresh : ℕ) (bs : List Block) (sz : ℕ) (r : Region)
    → Taken fresh bs r
    → StaysApart r sz (in_new fresh bs sz)
unfolding block_new
in_new-apart fresh bs sz r t =
    (inl (λ e. omega (arith, t.0)), (omega (arith, t.0), ((λ e. absurd (omega (arith, t.0))), t.1)))

in_front-Apart_self :
    (b : Block) (r : Region) (sz : ℕ)
    → (b.base ≡ r.base → r.off + r.size ≤ b.used)
    → Apart r (record { base = b.base; off = b.used; size = sz })
in_front-Apart_self b r sz h = elim (ℕ_discrete b.base r.base) [
  | yes e ↦ inr (inl (h e))
  | no d ↦ inl (λ e. d (sym e))
]

in_front-apart :
    (fresh : ℕ) (b : Block) (bs : List Block) (sz : ℕ) (r : Region)
    → Taken fresh (b ∷ bs) r
    → StaysApart r sz (in_front fresh b bs sz)
in_front-apart fresh b bs sz r t =
    (in_front-Apart_self b r sz t.1.0, (t.0, ((λ e. omega (arith, t.1.0 e)), t.1.1)))

alloc_in-apart :
    (fresh : ℕ) (bs : List Block) (sz : ℕ) (r : Region)
    → sz ≤ 2 ^ 62
    → All IsSound bs
    → Taken fresh bs r
    → StaysApart r sz (alloc_in fresh bs sz)
alloc_in-apart fresh [] sz r small v t =
    rw (alloc_in-nil sz small fresh) (in_new-apart fresh [] sz r t)
alloc_in-apart fresh (b ∷ bs) sz r small v t = elim (alloc_in-cases sz small fresh b bs v.0) [
  | inl e ↦ rw e (in_new-apart fresh (b ∷ bs) sz r t)
  | inr e ↦ rw e (in_front-apart fresh b bs sz r t)
]

Taken-Apart :
    (fresh : ℕ) (bs : List Block) (ns : List ℤ) (r : Region)
    → All Modest ns
    → All IsSound bs
    → Taken fresh bs r
    → All (Apart r) (alloc_many fresh bs ns)
unfolding alloc_many
Taken-Apart fresh bs [] r ms v t = tt
Taken-Apart fresh bs (n ∷ ns) r ms v t =
    let v' = (alloc_in-IsSound fresh bs n ms.0 v).0 in
    let (a, k) = alloc_in-apart fresh bs (align n) r (align-IsRounded n ms.0).bounded v t in
    (a, Taken-Apart (alloc_in fresh bs (align n)).2 (alloc_in fresh bs (align n)).1 ns r ms.1 v' k)

-- However many requests an arena serves, each of at most 2^62 bytes, no two of the regions that it
-- hands out share a byte, provided that its blocks are sound and come from different earlier mallocs,
-- as those of a fresh arena do.
pub alloc_many-AllApart :
    (fresh : ℕ) (bs : List Block) (ns : List ℤ)
    → All Modest ns
    → All IsSound bs
    → Older fresh bs
    → OwnBases bs
    → AllApart (alloc_many fresh bs ns)
unfolding alloc_many
alloc_many-AllApart fresh bs [] ms v h o = tt
alloc_many-AllApart fresh bs (n ∷ ns) ms v h o =
    let v' = (alloc_in-IsSound fresh bs n ms.0 v).0 in
    let (h', o', t) = alloc_in-facts fresh bs (align n) (align-IsRounded n ms.0).bounded v h o in
    (
      Taken-Apart (alloc_in fresh bs (align n)).2 (alloc_in fresh bs (align n)).1 ns _ ms.1 v' t,
      alloc_many-AllApart (alloc_in fresh bs (align n)).2 (alloc_in fresh bs (align n)).1 ns ms.1 v'
          h' o',
    )
