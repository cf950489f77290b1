-- ===== src/Fmt.antt =====
-- runtime/vader_fmt.c. How a double is printed is an argument.
mod Tests
use mathlib.Core.Path.{subst}
use vader_langue.Prelude.{
  ℕ, ◌⊎◌, inl, inr, Bool-cases, ◌+◌, ◌-◌, ◌≡◌, ◌≤◌, refl, ap, ◌∙◌, Bool, true, false, Option, none,
  some, List, [], ◌∷◌, ◌++◌, Bytes, ℤ, pos, negsuc, codes, arith, ltb, if◌then◌else◌, length,
  replicate, take, drop, length-append, length-replicate, drop-length-append,
}
use vader_langue.Libc.{print_int}

unfoldable pub from_int : ℤ → Bytes
from_int n = print_int n

-- `print_g` is what `%g` prints; the array has 32 bytes.
unfoldable pub from_float : {D : Type 0} → (D → Bytes) → D → Bytes
from_float print_g f = take 31 (print_g f)

unfoldable pub from_bool : Bool → Bytes
from_bool b = if b then codes "true" else codes "false"

-- `(ch && ch[0]) ? ch[0] : ' '`
abbrev pub fill : Option Bytes → ℕ
fill none = 32
fill (some []) = 32
fill (some (c ∷ s)) = c

-- `width > n ? width - n : 0`
abbrev pub pad : ℤ → ℕ → ℕ
pad (pos w) n = if ltb n w then w - n else 0
pad (negsuc w) n = 0

unfoldable pub pad_left : Bytes → ℤ → Option Bytes → Bytes
pad_left s width ch = replicate (pad width (length s)) (fill ch) ++ s

abbrev pub width_of : ℤ → ℕ
width_of (pos w) = w
width_of (negsuc w) = 0

pad_lem : (width : ℤ) (n : ℕ) → (width_of width ≤ pad width n + n) × (n ≤ pad width n + n)
pad_lem (pos w) n = ground arith
pad_lem (negsuc w) n = omega arith

pad_exact : (width : ℤ) (n : ℕ) → (pad width n ≡ 0) ⊎ (pad width n + n ≡ width_of width)
pad_exact (pos w) n = elim (Bool-cases (ltb n w)) [
  | inl e ↦ inr (ground arith)
  | inr e ↦ inl (rw e)
]
pad_exact (negsuc w) n = inl refl

-- Padding on the left gives at least `width` bytes, no more than that where the string was shorter,
-- with the string at the end and only fill bytes before it.
pub pad_left_lem :
    (s : Bytes) (width : ℤ) (ch : Option Bytes)
    → let k = pad width (length s) in
      (length (pad_left s width ch) ≡ k + length s)
      × (width_of width ≤ length (pad_left s width ch))
      × ((k ≡ 0) ⊎ (k + length s ≡ width_of width))
      × (drop k (pad_left s width ch) ≡ s)
unfolding pad_left
pad_left_lem s width ch =
    let k = pad width (length s) in
    let front = replicate k (fill ch) in
    let e : length (front ++ s) ≡ k + length s =
      omega (arith, length-append front s, length-replicate k (fill ch)) in
    (
      e,
      rw e (pad_lem width (length s)).0,
      pad_exact width (length s),
      subst (λ n. drop n (front ++ s) ≡ s) (length-replicate k (fill ch))
          (drop-length-append front s),
    )
