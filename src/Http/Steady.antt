-- ===== src/Http/Steady.antt =====
-- The arena of the requests of runtime/vader_http.c where they fit into its front block.
use vader_langue.Prelude.{
  ℕ, ◌+◌, ◌%◌, ◌^◌, ◌≡◌, ◌≤◌, ◌<◌, refl, ap, ◌∙◌, arith, false, Option, some, List, [], ◌∷◌, ℤ, All,
  ltb, ◌>>=◌, get_elem?-set-some, length, length-map, map,
}
use vader_langue.Mem.{Block, Heap, alloc, alloc_in, align, reset, rewind}
use vader_langue.Mem.Growth.{Holds, with_blocks, reset_lem, alloc_lem}
use vader_langue.Mem.Scope.{allocs}
use vader_langue.Http.Opening.{request_arena}

-- The bytes that some requests take in a block.
abbrev pub total : List ℤ → ℕ
total [] = 0
total (n ∷ ns) = align n + total ns

-- One request of a client after another, each with what is allocated for it.
unfoldable pub serve_all : Heap → ℕ → List (List ℤ) → Option Heap
serve_all h a [] = some h
serve_all h a (ns ∷ rounds) =
    request_arena h (some a) >>= λ r. allocs r.1 ns >>= λ h'. serve_all h' a rounds

-- The arena `a` has `k` blocks behind a front block of `cap` bytes, and `m` mallocs were made.
pub record Stands (h : Heap) (a cap k m : ℕ) (prev : Option ℕ) : Type 0 where
  pub front : Block
  pub behind : List Block
  pub holds : Holds h a (front ∷ behind) prev
  pub wide : front.cap ≡ cap
  pub many : length behind ≡ k
  pub calls : h.mallocs ≡ m

alloc_in-fits :
    (m sz : ℕ) (b : Block) (bs : List Block)
    → b.used + sz ≤ b.cap
    → b.cap < 2 ^ 64
    → ((alloc_in m (b ∷ bs) sz).1 ≡ record b { used = b.used + sz } ∷ bs)
      × ((alloc_in m (b ∷ bs) sz).2 ≡ m)
unfolding alloc_in
alloc_in-fits m sz b bs h c =
    let small : ltb b.cap ((b.used + sz) % 2 ^ 64) ≡ false = ground arith in
    let no_wrap : (b.used + sz) % 2 ^ 64 ≡ b.used + sz = omega (arith, h, c) in
    (rw (small, no_wrap) refl, rw small refl)

allocs-fit :
    (ns : List ℤ) (h : Heap) (a k m : ℕ) (b : Block) (bs : List Block) (prev : Option ℕ)
    → h.cur ≡ some a
    → Holds h a (b ∷ bs) prev
    → h.mallocs ≡ m
    → length bs ≡ k
    → b.used + total ns ≤ b.cap
    → b.cap < 2 ^ 64
    → (h' : Heap) × (allocs h ns ≡ some h') × Stands h' a b.cap k m prev
unfolding allocs
allocs-fit [] h a k m b bs prev c e hm hk l w =
    (h, refl, record { front = b; behind = bs; holds = e; wide = refl; many = hk; calls = hm })
allocs-fit (n ∷ ns) h a k m b bs prev c e hm hk l w =
    let sz = align n in
    let fit = alloc_in-fits h.mallocs sz b bs (omega arith) w in
    let b1 = record b { used = b.used + sz } in
    let h1 = with_blocks h h.mallocs a (b1 ∷ bs) prev in
    let one : alloc h n ≡ some ((alloc_in h.mallocs (b ∷ bs) sz).0, h1) =
      alloc_lem h a (b ∷ bs) prev n c e
      ∙ ap
          (λ l. some (
            (alloc_in h.mallocs (b ∷ bs) sz).0,
            with_blocks h (alloc_in h.mallocs (b ∷ bs) sz).2 a l prev,
          ))
          fit.0
      ∙ ap (λ t. some ((alloc_in h.mallocs (b ∷ bs) sz).0, with_blocks h t a (b1 ∷ bs) prev))
          fit.1 in
    let (h', r, s) =
      allocs-fit ns h1 a k m b1 bs prev refl (get_elem?-set-some h.arenas a _ _ e) hm hk
        (omega arith) w in
    (h', ap (λ o. o >>= λ r. allocs r.1 ns) one ∙ r, s)

-- However many requests a server has served, its arena has the blocks that it had, and no further
-- malloc was made, if what is allocated for each request fits into the front block.
pub serve_all-Stands :
    (rounds : List (List ℤ)) (h : Heap) (a cap k m : ℕ) (prev : Option ℕ)
    → Stands h a cap k m prev
    → cap < 2 ^ 64
    → All (λ ns. total ns ≤ cap) rounds
    → (h' : Heap) × (serve_all h a rounds ≡ some h') × Stands h' a cap k m prev
unfolding serve_all request_arena
serve_all-Stands [] h a cap k m prev s w l = (h, refl, s)
serve_all-Stands (ns ∷ rounds) h a cap k m prev s w l =
    let bs = map rewind s.behind in
    let h1 = with_blocks h h.mallocs a (rewind s.front ∷ bs) prev in
    let first : reset h a ≡ some h1 = reset_lem h a (s.front ∷ s.behind) prev s.holds in
    let (h2, r, t) =
      allocs-fit ns h1 a k m (rewind s.front) bs prev refl
        (get_elem?-set-some h.arenas a _ _ s.holds) s.calls (length-map rewind s.behind ∙ s.many)
        (omega (arith, s.wide)) (omega (arith, s.wide)) in
    let u : Stands h2 a cap k m prev = record {
      front = t.front;
      behind = t.behind;
      holds = t.holds;
      wide = t.wide ∙ s.wide;
      many = t.many;
      calls = t.calls;
    } in
    let (h', r', s') = serve_all-Stands rounds h2 a cap k m prev u w l.1 in
    (h', rw (first, r) r', s')
