-- ===== src/Digest/Roots.antt =====
-- The numbers that the hash standards take from roots and sines, computed from their definitions.
use vader_langue.Prelude.{
  ℕ, zero, suc, ◌+◌, ◌-◌, ◌*◌, ◌/◌, ◌%◌, ◌^◌, List, [], ◌∷◌, leb, if◌then◌else◌,
}

-- The greatest number below `acc + 2 ^ bits` whose `k`-th power is at most `n`, from its bits downwards.
unfoldable pub root : ℕ → ℕ → ℕ → ℕ → ℕ
root k zero acc n = acc
root k (suc bits) acc n =
    let bit = acc + 2 ^ bits in root k bits (if leb (bit ^ k) n then bit else acc) n

-- The first 32 bits of the fractional part of the `k`-th root.
unfoldable pub root_fraction : ℕ → ℕ → ℕ
unfolding root
root_fraction k p = root k 40 0 (p * 2 ^ (32 * k)) % 2 ^ 32

abbrev pub primes : List ℕ
primes =
    2 ∷ 3 ∷ 5 ∷ 7 ∷ 11 ∷ 13 ∷ 17 ∷ 19 ∷ 23 ∷ 29 ∷ 31 ∷ 37 ∷ 41 ∷ 43 ∷ 47 ∷ 53 ∷ 59 ∷ 61 ∷ 67 ∷ 71
    ∷ 73 ∷ 79 ∷ 83 ∷ 89 ∷ 97 ∷ 101 ∷ 103 ∷ 107 ∷ 109 ∷ 113 ∷ 127 ∷ 131 ∷ 137 ∷ 139 ∷ 149 ∷ 151 ∷ 157
    ∷ 163 ∷ 167 ∷ 173 ∷ 179 ∷ 181 ∷ 191 ∷ 193 ∷ 197 ∷ 199 ∷ 211 ∷ 223 ∷ 227 ∷ 229 ∷ 233 ∷ 239 ∷ 241
    ∷ 251 ∷ 257 ∷ 263 ∷ 269 ∷ 271 ∷ 277 ∷ 281 ∷ 283 ∷ 293 ∷ 307 ∷ 311 ∷ []

-- The first 32 bits of a square root, two of them before the point.
unfoldable pub root_word : ℕ → ℕ
unfolding root
root_word p = root 2 40 0 (p * 2 ^ 60)

-- The sums of the terms with a plus and with a minus of the series of the sine of `x`, in units of 2^-128;
-- `term` is the next one, of degree `k`.
unfoldable pub sine_sums : ℕ → ℕ → ℕ → ℕ → ℕ → ℕ → ℕ
sine_sums zero x k term plus minus = (plus - minus) + (minus - plus)
sine_sums (suc n) x k term plus minus =
    sine_sums n x (k + 2) (term * x * x / ((k + 1) * (k + 2))) minus (plus + term)

-- The first 32 bits of the absolute value of the sine of `x` radians.
unfoldable pub sine_word : ℕ → ℕ
unfolding sine_sums
sine_word x = sine_sums 120 x 1 (x * 2 ^ 128) 0 0 / 2 ^ 96
