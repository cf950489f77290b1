-- ===== src/Digest/Words.antt =====
-- Words of 32 bits as the hash standards write them, and numbers as bytes. The files of the standards'
-- hashes take nothing from the code.
use Prim.Native.Nat.{bit_or}
use vader_langue.Prelude.{ℕ, zero, suc, ◌+◌, ◌-◌, ◌*◌, ◌/◌, ◌%◌, ◌^◌, [], ◌∷◌, ◌++◌, Bytes}

-- ROTR and ROTL: by `n` to the right, and to the left.
abbrev pub right : ℕ → ℕ → ℕ
right n x = bit_or (x / 2 ^ n) (x * 2 ^ (32 - n) % 2 ^ 32)

abbrev pub left : ℕ → ℕ → ℕ
left n x = bit_or (x * 2 ^ n % 2 ^ 32) (x / 2 ^ (32 - n))

abbrev pub complement : ℕ → ℕ
complement x = 2 ^ 32 - 1 - x

-- Sums modulo 2^32.
abbrev pub sum2 : ℕ → ℕ → ℕ
sum2 a b = (a + b) % 2 ^ 32

abbrev pub sum4 : ℕ → ℕ → ℕ → ℕ → ℕ
sum4 a b c d = (a + b + c + d) % 2 ^ 32

abbrev pub sum5 : ℕ → ℕ → ℕ → ℕ → ℕ → ℕ
sum5 a b c d e = (a + b + c + d + e) % 2 ^ 32

-- A number of `8 * n` bits in `n` bytes, the highest first, and the lowest first.
abbrev pub high_to_low : ℕ → ℕ → Bytes
high_to_low zero x = []
high_to_low (suc zero) x = x % 256 ∷ []
high_to_low (suc (suc n)) x = x / 2 ^ (8 * suc n) % 256 ∷ high_to_low (suc n) x

abbrev pub low_to_high : ℕ → ℕ → Bytes
low_to_high zero x = []
low_to_high (suc zero) x = x % 256 ∷ []
low_to_high (suc (suc n)) x = low_to_high (suc n) x ++ x / 2 ^ (8 * suc n) % 256 ∷ []
