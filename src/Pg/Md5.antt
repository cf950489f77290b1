-- ===== src/Pg/Md5.antt =====
-- runtime/vader_pg.c: MD5. An `unsigned int` is a number below 2^32.
pub mod Blocks
pub mod Standard
mod Tests
use Prim.Native.Nat.{bit_or, bit_and, bit_xor}
use vader_langue.Prelude.{
  ℕ, suc, zero, ◌+◌, ◌-◌, ◌*◌, ◌/◌, ◌%◌, ◌^◌, List, [], ◌∷◌, ◌++◌, Bytes, ◌==◌, ltb, if◌then◌else◌,
  length, get_or,
}
use vader_langue.Scram.Sha256.{add32, not32, shr, shl32}
use vader_langue.Digest.{Pending, absorb}

unfoldable pub md5_k : List ℕ
md5_k =
    0xd76aa478 ∷ 0xe8c7b756 ∷ 0x242070db ∷ 0xc1bdceee ∷ 0xf57c0faf ∷ 0x4787c62a ∷ 0xa8304613
    ∷ 0xfd469501 ∷ 0x698098d8 ∷ 0x8b44f7af ∷ 0xffff5bb1 ∷ 0x895cd7be ∷ 0x6b901122 ∷ 0xfd987193
    ∷ 0xa679438e ∷ 0x49b40821 ∷ 0xf61e2562 ∷ 0xc040b340 ∷ 0x265e5a51 ∷ 0xe9b6c7aa ∷ 0xd62f105d
    ∷ 0x02441453 ∷ 0xd8a1e681 ∷ 0xe7d3fbc8 ∷ 0x21e1cde6 ∷ 0xc33707d6 ∷ 0xf4d50d87 ∷ 0x455a14ed
    ∷ 0xa9e3e905 ∷ 0xfcefa3f8 ∷ 0x676f02d9 ∷ 0x8d2a4c8a ∷ 0xfffa3942 ∷ 0x8771f681 ∷ 0x6d9d6122
    ∷ 0xfde5380c ∷ 0xa4beea44 ∷ 0x4bdecfa9 ∷ 0xf6bb4b60 ∷ 0xbebfbc70 ∷ 0x289b7ec6 ∷ 0xeaa127fa
    ∷ 0xd4ef3085 ∷ 0x04881d05 ∷ 0xd9d4d039 ∷ 0xe6db99e5 ∷ 0x1fa27cf8 ∷ 0xc4ac5665 ∷ 0xf4292244
    ∷ 0x432aff97 ∷ 0xab9423a7 ∷ 0xfc93a039 ∷ 0x655b59c3 ∷ 0x8f0ccc92 ∷ 0xffeff47d ∷ 0x85845dd1
    ∷ 0x6fa87e4f ∷ 0xfe2ce6e0 ∷ 0xa3014314 ∷ 0x4e0811a1 ∷ 0xf7537e82 ∷ 0xbd3af235 ∷ 0x2ad7d2bb
    ∷ 0xeb86d391 ∷ []

unfoldable pub md5_r : List ℕ
md5_r =
    7 ∷ 12 ∷ 17 ∷ 22 ∷ 7 ∷ 12 ∷ 17 ∷ 22 ∷ 7 ∷ 12 ∷ 17 ∷ 22 ∷ 7 ∷ 12 ∷ 17 ∷ 22 ∷ 5 ∷ 9 ∷ 14 ∷ 20 ∷ 5
    ∷ 9 ∷ 14 ∷ 20 ∷ 5 ∷ 9 ∷ 14 ∷ 20 ∷ 5 ∷ 9 ∷ 14 ∷ 20 ∷ 4 ∷ 11 ∷ 16 ∷ 23 ∷ 4 ∷ 11 ∷ 16 ∷ 23 ∷ 4 ∷ 11
    ∷ 16 ∷ 23 ∷ 4 ∷ 11 ∷ 16 ∷ 23 ∷ 6 ∷ 10 ∷ 15 ∷ 21 ∷ 6 ∷ 10 ∷ 15 ∷ 21 ∷ 6 ∷ 10 ∷ 15 ∷ 21 ∷ 6 ∷ 10
    ∷ 15 ∷ 21 ∷ []

unfoldable pub md5_lrot : ℕ → ℕ → ℕ
md5_lrot x c = bit_or (shl32 x c) (shr x (32 - c))

-- The first loop of `md5_block`: `n` words from byte `j` on, the lowest byte first.
unfoldable pub md5_words : ℕ → ℕ → Bytes → List ℕ
md5_words zero j p = []
md5_words (suc n) j p =
    bit_or
      (bit_or (bit_or (get_or p j 0) (shl32 (get_or p (j + 1) 0) 8))
        (shl32 (get_or p (j + 2) 0) 16))
      (shl32 (get_or p (j + 3) 0) 24)
    ∷ md5_words n (j + 4) p

-- `h`, and the variables `a` to `d`.
pub record Four : Type 0 where
  pub a : ℕ
  pub b : ℕ
  pub c : ℕ
  pub d : ℕ

-- `f` and `g` of round `i`.
abbrev pub md5_f : ℕ → Four → ℕ
md5_f i v =
    if ltb i 16
    then bit_or (bit_and v.b v.c) (bit_and (not32 v.b) v.d)
    else if ltb i 32
    then bit_or (bit_and v.d v.b) (bit_and (not32 v.d) v.c)
    else if ltb i 48
    then bit_xor (bit_xor v.b v.c) v.d
    else bit_xor v.c (bit_or v.b (not32 v.d))

abbrev pub md5_g : ℕ → ℕ
md5_g i =
    if ltb i 16
    then i
    else if ltb i 32
    then (5 * i + 1) % 16
    else if ltb i 48
    then (3 * i + 5) % 16
    else 7 * i % 16

abbrev pub md5_round : List ℕ → ℕ → Four → Four
md5_round m i v = record {
  a = v.d;
  b = add32 v.b (
      md5_lrot (add32 (add32 (add32 v.a (md5_f i v)) (get_or md5_k i 0)) (get_or m (md5_g i) 0))
        (get_or md5_r i 0));
  c = v.b;
  d = v.c;
}

-- The second loop, for `n` more rounds from `i` on.
unfoldable pub md5_rounds : ℕ → ℕ → List ℕ → Four → Four
unfolding md5_lrot md5_k md5_r
md5_rounds zero i m v = v
md5_rounds (suc n) i m v = md5_rounds n (i + 1) m (md5_round m i v)

abbrev pub four_add : Four → Four → Four
four_add s v = record { a = add32 s.a v.a; b = add32 s.b v.b; c = add32 s.c v.c; d = add32 s.d v.d }

unfoldable pub md5_block : Four → Bytes → Four
unfolding md5_words md5_rounds
md5_block s p = four_add s (md5_rounds 64 0 (md5_words 16 0 p) s)

pub record Md5 : Type 0 where
  pub h : Four
  pub len : ℕ
  pub buf : Bytes
  pub n : ℕ

abbrev pub md5_iv : Four
md5_iv = record { a = 0x67452301; b = 0xefcdab89; c = 0x98badcfe; d = 0x10325476 }

-- `md5_init`; it leaves the buffer as it is.
abbrev pub md5_init : Bytes → Md5
md5_init garbage = record { h = md5_iv; len = 0; buf = garbage; n = 0 }

unfoldable pub md5_update : Md5 → Bytes → Md5
unfolding absorb
md5_update c text =
    let p = absorb md5_block (record { bytes = c.buf; fill = c.n; state = c.h }) text in
    record { h = p.state; len = (c.len + length text) % 2 ^ 64; buf = p.bytes; n = p.fill }

-- The loop of `md5_final`; fewer than 64 zeros are put in.
unfoldable pub md5_zeros : ℕ → Md5 → Md5
md5_zeros zero c = c
md5_zeros (suc f) c =
    let rest = md5_zeros f (md5_update c (0 ∷ [])) in if c.n == 56 then c else rest

-- `lb`: a number in 8 bytes, the lowest first.
abbrev pub low_first : ℕ → Bytes
low_first n =
    n % 256
    ∷ shr n 8 % 256
    ∷ shr n 16 % 256
    ∷ shr n 24 % 256
    ∷ shr n 32 % 256
    ∷ shr n 40 % 256
    ∷ shr n 48 % 256
    ∷ shr n 56 % 256
    ∷ []

abbrev pub little_endian : ℕ → Bytes
little_endian w = w % 256 ∷ shr w 8 % 256 ∷ shr w 16 % 256 ∷ shr w 24 % 256 ∷ []

unfoldable pub four_bytes : Four → Bytes
four_bytes s = little_endian s.a ++ (little_endian s.b ++ (little_endian s.c ++ little_endian s.d))

unfoldable pub md5_final : Md5 → Bytes
md5_final c =
    four_bytes
      (md5_update (md5_zeros 64 (md5_update c (0x80 ∷ []))) (low_first (c.len * 8 % 2 ^ 64))).h

-- `md5_init`, `md5_update` and `md5_final` in a row. The buffer is not initialised.
unfoldable pub md5 : Bytes → Bytes → Bytes
md5 garbage s = md5_final (md5_update (md5_init garbage) s)

-- `hx[k]`
abbrev pub hex : ℕ → ℕ
hex k = if ltb k 10 then k + b'0' else k - 10 + b'a'

-- `md5_hex`
unfoldable pub md5_hex : Bytes → Bytes
md5_hex [] = []
md5_hex (x ∷ digest) = hex (shr x 4) ∷ hex (x % 16) ∷ md5_hex digest
