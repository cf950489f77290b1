-- ===== src/Digest/Rfc1321.antt =====
-- MD5 as RFC 1321 describes it, for messages that are a whole number of bytes.
use Prim.Native.Nat.{bit_or, bit_and, bit_xor}
use vader_langue.Prelude.{
  ℕ, zero, suc, ◌+◌, ◌-◌, ◌*◌, ◌/◌, ◌%◌, ◌^◌, List, [], ◌∷◌, ◌++◌, Bytes, length, get_or, ltb,
  if◌then◌else◌,
}
use vader_langue.Digest.Blocks.{hash_blocks, block_count, padded}
use vader_langue.Digest.Roots.{sine_word}
use vader_langue.Digest.Words.{left, complement, sum2, sum4, low_to_high}

-- The first `n` words of a block from byte `j` on, each with its lowest byte first.
unfoldable pub low_words : ℕ → ℕ → Bytes → List ℕ
low_words zero j b = []
low_words (suc n) j b =
    bit_or
      (bit_or (bit_or (get_or b j 0) (get_or b (j + 1) 0 * 2 ^ 8 % 2 ^ 32))
        (get_or b (j + 2) 0 * 2 ^ 16 % 2 ^ 32))
      (get_or b (j + 3) 0 * 2 ^ 24 % 2 ^ 32)
    ∷ low_words n (j + 4) b

pub record Registers : Type 0 where
  pub a : ℕ
  pub b : ℕ
  pub c : ℕ
  pub d : ℕ

abbrev pub fun_f : ℕ → ℕ → ℕ → ℕ
fun_f x y z = bit_or (bit_and x y) (bit_and (complement x) z)

abbrev pub fun_g : ℕ → ℕ → ℕ → ℕ
fun_g x y z = bit_or (bit_and z x) (bit_and (complement z) y)

abbrev pub fun_h : ℕ → ℕ → ℕ → ℕ
fun_h x y z = bit_xor (bit_xor x y) z

abbrev pub fun_i : ℕ → ℕ → ℕ → ℕ
fun_i x y z = bit_xor y (bit_or x (complement z))

-- One operation, `a = b + ((a + f(b, c, d) + X[k] + T[i]) <<< s)`, and the registers in their next order.
abbrev pub operation : (ℕ → ℕ → ℕ → ℕ) → ℕ → ℕ → ℕ → Registers → Registers
operation f x t s v = record {
  a = v.d;
  b = sum2 v.b (left s (sum4 v.a (f v.b v.c v.d) t x));
  c = v.b;
  d = v.c;
}

-- The four amounts that a round goes through in turn.
abbrev pub amount : List ℕ → ℕ → ℕ
amount four i = get_or four (i % 4) 0

-- What operation `i` of the 64, from 0 on, takes: its function, its word and its amount, for each of the
-- four rounds of 16.
abbrev pub fun_at : ℕ → ℕ → ℕ → ℕ → ℕ
fun_at i x y z =
    if ltb i 16
    then fun_f x y z
    else if ltb i 32
    then fun_g x y z
    else if ltb i 48
    then fun_h x y z
    else fun_i x y z

abbrev pub word_at : ℕ → ℕ
word_at i =
    if ltb i 16
    then i
    else if ltb i 32
    then (5 * i + 1) % 16
    else if ltb i 48
    then (3 * i + 5) % 16
    else 7 * i % 16

abbrev pub amount_at : ℕ → ℕ
amount_at i =
    if ltb i 16
    then amount (7 ∷ 12 ∷ 17 ∷ 22 ∷ []) i
    else if ltb i 32
    then amount (5 ∷ 9 ∷ 14 ∷ 20 ∷ []) i
    else if ltb i 48
    then amount (4 ∷ 11 ∷ 16 ∷ 23 ∷ []) i
    else amount (6 ∷ 10 ∷ 15 ∷ 21 ∷ []) i

-- T[i + 1] is the integer part of 2^32 times the absolute value of the sine of i + 1.
abbrev pub numbered : List ℕ → ℕ → Registers → Registers
numbered x i v = operation (fun_at i) (get_or x (word_at i) 0) (sine_word (i + 1)) (amount_at i) v

unfoldable pub operations : ℕ → ℕ → List ℕ → Registers → Registers
unfolding sine_word
operations zero i x v = v
operations (suc n) i x v = operations n (i + 1) x (numbered x i v)

unfoldable pub registers_block : Registers → Bytes → Registers
unfolding low_words operations
registers_block s b =
    let v = operations 64 0 (low_words 16 0 b) s in
    record { a = sum2 s.a v.a; b = sum2 s.b v.b; c = sum2 s.c v.c; d = sum2 s.d v.d }

abbrev pub registers_start : Registers
registers_start = record { a = 0x67452301; b = 0xefcdab89; c = 0x98badcfe; d = 0x10325476 }

abbrev pub registers_octets : Registers → Bytes
registers_octets v =
    low_to_high 4 v.a ++ (low_to_high 4 v.b ++ (low_to_high 4 v.c ++ low_to_high 4 v.d))

abbrev pub md5_of : Bytes → Bytes
md5_of s = registers_octets (
    hash_blocks registers_block (block_count (length s)) registers_start (padded (low_to_high 8) s))

-- Hexadecimal: for each byte the digit of its high half, and then that of its low half.
abbrev pub hexadecimal : ℕ → ℕ
hexadecimal n = if ltb n 10 then n + b'0' else n - 10 + b'a'

unfoldable pub hex_text : Bytes → Bytes
hex_text [] = []
hex_text (x ∷ s) = hexadecimal (x / 16) ∷ hexadecimal (x % 16) ∷ hex_text s
