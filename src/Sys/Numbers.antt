-- ===== src/Sys/Numbers.antt =====
-- What the functions of runtime/vader_math.c and vader_time.c compute.
use vader_langue.Prelude.{
  ℕ, suc, ◌*◌, ◌/◌, ◌%◌, ◌^◌, ap, sym, ◌∙◌, Bool-cases, inl, inr, if◌then◌else◌, ◌≡◌, ◌<◌, refl,
  arith, true, pos,
}
use vader_langue.Sys.{Random, ensure_seed, random_for, math_random_int, time_sleep, time_now_ms}

module _ {G : Type 0} (srand : ℕ → G) (rand : G → ℕ × G) where
  seed_seeded : (now : ℕ) (r : Random G) → (ensure_seed srand rand now r).seeded ≡ true
  seed_seeded now r = elim (Bool-cases r.seeded) [ inl e ↦ ground arith | inr e ↦ ground arith ]

  seed_once : (now : ℕ) (r : Random G) → r.seeded ≡ true → ensure_seed srand rand now r ≡ r
  seed_once now r h = ap (λ b. if b then r else fresh_seed now) h
    where
      fresh_seed : ℕ → Random G
      fresh_seed now = record { generator = srand (now % 2 ^ 32); seeded = true }

-- A random number is one of the first `n`, whatever the generator gives, and after the first call
-- the clock has no part in it.
pub math_random_int_bounds :
    {G : Type 0} (srand : ℕ → G) (rand : G → ℕ × G) (n now later : ℕ) (r : Random G)
    → (k : ℕ) × ((math_random_int srand rand (pos (suc n)) now r).0 ≡ pos k)
      × (k < suc n)
      × (math_random_int srand rand
            (pos (suc n))
            later
            (math_random_int srand rand (pos (suc n)) now r).1
          ≡ math_random_int srand rand
              (pos (suc n))
              now
              (math_random_int srand rand (pos (suc n)) now r).1)
unfolding math_random_int
math_random_int_bounds srand rand n now later r =
    let again = (math_random_int srand rand (pos (suc n)) now r).1 in
    let seeded = seed_seeded srand rand now r in
    (
      _,
      refl,
      omega arith,
      ap (random_for srand rand (pos (suc n)))
          (seed_once srand rand later again seeded ∙ sym (seed_once srand rand now again seeded)),
    )

-- For a time that is not negative, `nanosleep` is given fewer than 10^9 nanoseconds, and a clock that
-- shows the time it is given shows that many milliseconds.
pub time_now_ms-time_sleep :
    (ms : ℕ)
    → (s k : ℕ) × (time_sleep (pos ms) ≡ record { tv_sec = pos s; tv_nsec = pos k })
      × (k < 1000000000)
      × (time_now_ms s k ≡ ms)
unfolding time_sleep time_now_ms
time_now_ms-time_sleep ms = (ms / 1000, ms % 1000 * 1000000, refl, omega arith, omega arith)
