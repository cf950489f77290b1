-- ===== src/Sys.antt =====
-- runtime/vader_math.c, without its functions on floating-point numbers, vader_time.c and vader_os.c.
-- The clocks, `localtime_r`, `strftime`, `rand` and the environment are arguments.
pub mod Files
pub mod Lines
pub mod Numbers
mod Tests
use vader_langue.Prelude.{
  ℕ, suc, zero, ◌+◌, ◌-◌, ◌*◌, ◌/◌, ◌%◌, ◌^◌, Bool, true, false, Option, none, some, List, [],
  Bytes, ltb, if◌then◌else◌, ℤ, pos, negsuc, int_ltb,
}

-- `n < 0 ? -n : n`, where -2^63, of which C has no opposite, is not given.
unfoldable pub math_abs_int : ℤ → ℤ
math_abs_int (pos n) = pos n
math_abs_int (negsuc n) = pos (suc n)

unfoldable pub math_min_int : ℤ → ℤ → ℤ
math_min_int a b = if int_ltb a b then a else b

unfoldable pub math_max_int : ℤ → ℤ → ℤ
math_max_int a b = if int_ltb b a then a else b

-- The generator of `rand`, and `seeded`.
pub record Random (G : Type 0) : Type 0 where
  pub generator : G
  pub seeded : Bool

module _ {G : Type 0} (srand : ℕ → G) (rand : G → ℕ × G) where
  -- `time(0)` is `now`.
  abbrev pub ensure_seed : ℕ → Random G → Random G
  ensure_seed now r =
      if r.seeded then r else record { generator = srand (now % 2 ^ 32); seeded = true }

  abbrev pub random_for : ℤ → Random G → ℤ × Random G
  random_for (negsuc n) r = (pos 0, r)
  random_for (pos zero) r = (pos 0, r)
  random_for (pos (suc n)) r =
      (pos ((rand r.generator).0 % suc n), record r { generator = (rand r.generator).1 })

  unfoldable pub math_random_int : ℤ → ℕ → Random G → ℤ × Random G
  math_random_int n now r = random_for n (ensure_seed now r)

-- `struct timespec`
pub record TimeSpec : Type 0 where
  pub tv_sec : ℤ
  pub tv_nsec : ℤ

abbrev pub negated : ℕ → ℤ
negated zero = pos 0
negated (suc n) = negsuc n

-- What `vader_time_sleep` gives to `nanosleep`; C rounds towards 0.
unfoldable pub time_sleep : ℤ → TimeSpec
time_sleep (pos ms) = record { tv_sec = pos (ms / 1000); tv_nsec = pos (ms % 1000 * 1000000) }
time_sleep (negsuc n) = record {
  tv_sec = negated (suc n / 1000);
  tv_nsec = negated (suc n % 1000 * 1000000);
}

-- `vader_time_now_ms` for a clock after 1970.
unfoldable pub time_now_ms : ℕ → ℕ → ℕ
time_now_ms tv_sec tv_nsec = tv_sec * 1000 + tv_nsec / 1000000

-- The parts of `struct tm` that are read.
pub record Tm : Type 0 where
  pub tm_year : ℤ
  pub tm_mon : ℤ
  pub tm_mday : ℤ
  pub tm_hour : ℤ
  pub tm_min : ℤ
  pub tm_sec : ℤ

abbrev pub plus : ℕ → ℤ → ℤ
plus k (pos n) = pos (n + k)
plus k (negsuc n) = if ltb n k then pos (k - suc n) else negsuc (n - k)

module _ (localtime_r : ℤ → Tm) where
  abbrev pub tm_of : ℤ → Tm
  tm_of ts = localtime_r ts

  abbrev pub time_year : ℤ → ℤ
  time_year ts = plus 1900 (tm_of ts).tm_year

  abbrev pub time_month : ℤ → ℤ
  time_month ts = plus 1 (tm_of ts).tm_mon

  abbrev pub time_day : ℤ → ℤ
  time_day ts = (tm_of ts).tm_mday

  abbrev pub time_hour : ℤ → ℤ
  time_hour ts = (tm_of ts).tm_hour

  abbrev pub time_minute : ℤ → ℤ
  time_minute ts = (tm_of ts).tm_min

  abbrev pub time_second : ℤ → ℤ
  time_second ts = (tm_of ts).tm_sec

  -- `strftime` gives the text, which `out` has 32 bytes for.
  abbrev pub time_format : (Tm → Bytes) → ℤ → Bytes
  time_format strftime ts = strftime (tm_of ts)

-- `vader_env_read`
unfoldable pub env_read : (Bytes → Option Bytes) → Bytes → Bytes
env_read getenv name = elim (getenv name) [ none ↦ [] | some v ↦ v ]
