-- ===== src/Mem/Scope.antt =====
-- Scopes of runtime/vader_mem.c nest: what is opened and released leaves the scopes below as they
-- were.
use vader_langue.Prelude.{
  ℕ, ◌≡◌, refl, Option, none, some, List, [], ◌∷◌, ◌++◌, ℤ, length, ◌>>=◌, ==-self,
  get_elem?-concat, set-concat,
}
use vader_langue.Mem.{Block, Arena, Heap, alloc, alloc_in, align, scope, release}

-- A run of allocations.
unfoldable pub allocs : Heap → List ℤ → Option Heap
allocs h [] = some h
allocs h (n ∷ ns) = alloc h n >>= λ r. allocs r.1 ns

-- A scope is opened, serves requests and is released.
unfoldable pub with_scope : Heap → List ℤ → Option Heap
with_scope h ns = allocs (scope h).1 ns >>= λ h'. release h' (scope h).0

-- Above the arenas `below`, the top arena is current.
abbrev top : List (Option Arena) → ℕ → List Block → Option ℕ → Heap
top below m bs prev = record {
  mallocs = m;
  arenas = below ++ some (record { blocks = bs; prev = prev }) ∷ [];
  cur = some (length below);
}

alloc-top :
    (below : List (Option Arena)) (m : ℕ) (bs : List Block) (prev : Option ℕ) (n : ℤ)
    → alloc (top below m bs prev) n
      ≡ some (
        (alloc_in m bs (align n)).0,
        top below (alloc_in m bs (align n)).2 (alloc_in m bs (align n)).1 prev,
      )
unfolding alloc
alloc-top below m bs prev n =
    rw (get_elem?-concat below (some (record { blocks = bs; prev = prev })), set-concat)

allocs-top :
    (below : List (Option Arena)) (m : ℕ) (bs : List Block) (prev : Option ℕ) (ns : List ℤ)
    → (m' : ℕ) × (bs' : List Block) × (allocs (top below m bs prev) ns
        ≡ some (top below m' bs' prev))
unfolding allocs
allocs-top below m bs prev [] = (m, bs, refl)
allocs-top below m bs prev (n ∷ ns) =
    let sz = align n in
    let (m', bs', e) = allocs-top below (alloc_in m bs sz).2 (alloc_in m bs sz).1 prev ns in
    (m', bs', rw (alloc-top below m bs prev n) e)

release-top :
    (below : List (Option Arena)) (m : ℕ) (bs : List Block) (prev : Option ℕ)
    → release (top below m bs prev) (length below)
      ≡ some (record { mallocs = m; arenas = below ++ none ∷ []; cur = prev })
unfolding release
release-top below m bs prev = rw (
  get_elem?-concat below (some (record { blocks = bs; prev = prev })),
  set-concat,
  ==-self (length below),
)

-- Opening a scope, serving any requests in it and releasing it never touches a freed arena, makes the
-- scope that was current before current again, frees exactly the new arena and leaves every other
-- arena, its blocks included, as it was.
pub with_scope_lem :
    (h : Heap) (ns : List ℤ)
    → (m : ℕ) × (with_scope h ns
        ≡ some (record { mallocs = m; arenas = h.arenas ++ none ∷ []; cur = h.cur }))
unfolding with_scope scope
with_scope_lem h ns =
    let (m, bs, e) = allocs-top h.arenas h.mallocs [] h.cur ns in
    (m, rw e (release-top h.arenas m bs h.cur))
