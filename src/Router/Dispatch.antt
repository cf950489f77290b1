-- ===== src/Router/Dispatch.antt =====
-- runtime/vader_router.c: which handler a request gets, and that the table has room.
use vader_langue.Prelude.{
  ℕ, ◌+◌, ◌*◌, ◌≡◌, ◌≤◌, refl, arith, ◌&&◌, Bool-cases, inl, inr, Option, none, some, List, [], ◌∷◌,
  ◌++◌, Bytes, bytes_eq, if◌then◌else◌, length, length-append,
}
use vader_langue.Router.{Route, Router, add, grown, matching}

-- The first of two handlers that is there.
abbrev pub or_else : {A : Type 0} → Option A → Option A → Option A
or_else none o = o
or_else (some f) o = some f

grown_more : (n cap : ℕ) → n ≤ cap → n + 1 ≤ grown n cap
unfolding grown
grown_more n cap h = ground arith

grown_less : (n cap : ℕ) → grown n cap ≤ cap * 2 + 8
unfolding grown
grown_less n cap = ground arith

module _ {W : Type 0} where
  matching-append :
      (routes more : List (Route W)) (m p : Bytes)
      → matching (routes ++ more) m p ≡ or_else (matching routes m p) (matching more m p)
  unfolding matching
  matching-append [] more m p = refl
  matching-append (x ∷ routes) more m p =
      elim (Bool-cases (bytes_eq x.method m && bytes_eq x.path p)) [
        | inl e ↦ rw e
        | inr e ↦ rw e (matching-append routes more m p)
      ]

  -- A new route answers the requests with its method and path that no earlier route answers; every
  -- other request gets the handler that it got before.
  pub matching-add :
      (r : Router W) (method path : Bytes) (fn : W → W) (m p : Bytes)
      → matching (add r method path fn).routes m p
        ≡ or_else
            (matching r.routes m p)
            (if bytes_eq method m && bytes_eq path p then some fn else none)
  matching-add r method path fn m p =
      unfold add matching in
      matching-append r.routes (record { method = method; path = path; fn = fn } ∷ []) m p

  -- The routes fit the array.
  abbrev pub Fits : Router W → Type 0
  Fits r = length r.routes ≤ r.cap

  -- Adding a route keeps the routes within the array, which has room for one at least.
  pub add-Fits :
      (r : Router W) (method path : Bytes) (fn : W → W)
      → Fits r
      → Fits (add r method path fn) × ((add r method path fn).cap ≤ r.cap * 2 + 8)
  unfolding add
  add-Fits r method path fn h = (
    omega (
      arith,
      length-append r.routes (record { method = method; path = path; fn = fn } ∷ []),
      grown_more (length r.routes) r.cap h,
    ),
    grown_less (length r.routes) r.cap,
  )
