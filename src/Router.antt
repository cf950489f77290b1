-- ===== src/Router.antt =====
-- runtime/vader_router.c: the table of routes and the dispatch of requests. `W` is what a handler may
-- change, the connection included; what vader_http_accept yields is the sequence of requests.
pub mod Dispatch
pub mod Serving
mod Tests
use vader_langue.Prelude.{
  ℕ, suc, zero, ◌+◌, ◌*◌, Bool, true, false, ◌&&◌, Option, none, some, List, [], ◌∷◌, ◌++◌, Bytes,
  bytes_eq, ◌==◌, leb, if◌then◌else◌, length,
}

pub record Route (W : Type 0) : Type 0 where
  pub method : Bytes
  pub path : Bytes
  pub fn : W → W

-- `count` is the number of `routes`; `cap` is for how many there is room.
pub record Router (W : Type 0) : Type 0 where
  pub routes : List (Route W)
  pub cap : ℕ

-- `vader_router_new`
abbrev pub new : {W : Type 0} → Router W
new = record { routes = []; cap = 0 }

-- The room when a route is put in.
unfoldable pub grown : ℕ → ℕ → ℕ
grown count cap = if leb cap count then (if cap == 0 then 8 else cap * 2) else cap

-- `vader_router_add`
unfoldable pub add : {W : Type 0} → Router W → Bytes → Bytes → (W → W) → Router W
unfolding grown
add r method path fn = record {
  routes = r.routes ++ record { method = method; path = path; fn = fn } ∷ [];
  cap = grown (length r.routes) r.cap;
}

-- The inner loop of `vader_router_serve`.
unfoldable pub matching : {W : Type 0} → List (Route W) → Bytes → Bytes → Option (W → W)
matching [] m p = none
matching (x ∷ routes) m p =
    let rest = matching routes m p in
    if bytes_eq x.method m && bytes_eq x.path p then some x.fn else rest

-- One round of the outer loop. `not_found` is the response with status 404.
unfoldable pub serve_one : {W : Type 0} → Router W → (W → W) → Bytes × Bytes → W → W
unfolding matching
serve_one r not_found (m, p) w = elim (matching r.routes m p) [ none ↦ not_found w | some f ↦ f w ]

unfoldable pub serve : {W : Type 0} → Router W → (W → W) → List (Bytes × Bytes) → W → W
serve r not_found [] w = w
serve r not_found (q ∷ requests) w = serve r not_found requests (serve_one r not_found q w)
