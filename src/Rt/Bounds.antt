-- ===== src/Rt/Bounds.antt =====
-- runtime/vader_rt.c and runtime/vader_test.c: what a panic does, with and without the test harness.
use vader_langue.Prelude.{
  ◌<◌, ◌≡◌, ◌↔◌, Bool, ◌||◌, ℤ, pos, negsuc, arith, if◌then◌else◌, int_ltb, not,
}

-- How a call ends: it returns, jumps to `g_test_jmp`, or exits the process with status 1.
pub data Control : Type 0 where
  returns : Control
  jumps : Control
  exits : Control

-- The argument is `g_in_test`.
unfoldable pub panic : Bool → Control
panic in_test = if in_test then jumps else exits

unfoldable pub bounds : Bool → ℤ → ℤ → Control
unfolding panic
bounds in_test idx len =
    if int_ltb idx (pos 0) || not (int_ltb idx len) then panic in_test else returns

-- An index is in range: not negative and below the length.
abbrev pub InRange : ℤ → ℤ → Type 0
InRange (pos i) (pos n) = i < n
InRange (pos i) (negsuc n) = ⊥
InRange (negsuc i) len = ⊥

-- `vader_bounds` returns exactly for the indices in [0, len), for every length, a negative one
-- included, in tests and outside them.
pub bounds_iff : (t : Bool) (idx len : ℤ) → (bounds t idx len ≡ returns) ↔ InRange idx len
unfolding bounds
bounds_iff t (pos i) (pos n) = ground arith
bounds_iff t (pos i) (negsuc n) = ground arith
bounds_iff t (negsuc i) (pos n) = ground arith
bounds_iff t (negsuc i) (negsuc n) = ground arith
