-- ===== src/Mysql/Sha1.antt =====
-- runtime/vader_mysql.c: SHA-1. An `unsigned int` is a number below 2^32.
pub mod Blocks
pub mod Standard
mod Tests
use Prim.Native.Nat.{bit_or, bit_and, bit_xor}
use vader_langue.Prelude.{
  ℕ, suc, zero, ◌+◌, ◌-◌, ◌*◌, ◌/◌, ◌%◌, ◌^◌, List, [], ◌∷◌, ◌++◌, Bytes, ◌==◌, if◌then◌else◌,
  length, get_or, take, drop,
}
use vader_langue.Scram.Sha256.{add32, shr, shl32, words}
use vader_langue.Scram.Sha256.Buffer.{length_bytes}
use vader_langue.Digest.{Pending, absorb}

-- `(x << k) | (x >> (32 - k))`
abbrev pub rotl : ℕ → ℕ → ℕ
rotl x k = bit_or (shl32 x k) (shr x (32 - k))

-- The second loop of `sha1_transform`, for `n` more words behind those of `blk`.
unfoldable pub expand : ℕ → List ℕ → List ℕ
expand zero blk = blk
expand (suc n) blk =
    let i = length blk in
    let w =
      bit_xor
        (bit_xor (bit_xor (get_or blk (i - 3) 0) (get_or blk (i - 8) 0)) (get_or blk (i - 14) 0))
        (get_or blk (i - 16) 0) in
    expand n (blk ++ rotl w 1 ∷ [])

-- The variables `a` to `e`.
pub record Five : Type 0 where
  pub a : ℕ
  pub b : ℕ
  pub c : ℕ
  pub d : ℕ
  pub e : ℕ

-- `STEP`, for the value of its function and the sum of its constant and word.
abbrev pub step : (ℕ → ℕ → ℕ → ℕ) → ℕ → ℕ → Five → Five
step f k w v = record {
  a = add32 (add32 (add32 (add32 (rotl v.a 5) (f v.b v.c v.d)) v.e) k) w;
  b = v.a;
  c = rotl v.b 30;
  d = v.c;
  e = v.d;
}

-- One of the four loops, over its words.
unfoldable pub steps : (ℕ → ℕ → ℕ → ℕ) → ℕ → List ℕ → Five → Five
steps f k [] v = v
steps f k (w ∷ ws) v = steps f k ws (step f k w v)

abbrev pub choose : ℕ → ℕ → ℕ → ℕ
choose b c d = bit_xor (bit_and b (bit_xor c d)) d

abbrev pub parity : ℕ → ℕ → ℕ → ℕ
parity b c d = bit_xor (bit_xor b c) d

abbrev pub majority : ℕ → ℕ → ℕ → ℕ
majority b c d = bit_or (bit_and b c) (bit_and d (bit_or b c))

abbrev pub five_add : Five → Five → Five
five_add s v = record {
  a = add32 s.a v.a;
  b = add32 s.b v.b;
  c = add32 s.c v.c;
  d = add32 s.d v.d;
  e = add32 s.e v.e;
}

unfoldable pub sha1_transform : Five → Bytes → Five
unfolding expand steps words
sha1_transform s buffer =
    let blk = expand 64 (words 16 0 buffer) in
    five_add s (
      steps parity 0xCA62C1D6 (drop 60 blk) (
        steps majority 0x8F1BBCDC (take 20 (drop 40 blk)) (
          steps parity 0x6ED9EBA1 (take 20 (drop 20 blk))
            (steps choose 0x5A827999 (take 20 blk) s))))

pub record Sha1 : Type 0 where
  pub state : Five
  pub count : ℕ
  pub buffer : Bytes

abbrev pub sha1_iv : Five
sha1_iv = record { a = 0x67452301; b = 0xEFCDAB89; c = 0x98BADCFE; d = 0x10325476; e = 0xC3D2E1F0 }

-- `sha1_init`; it leaves the buffer as it is.
abbrev pub sha1_init : Bytes → Sha1
sha1_init garbage = record { state = sha1_iv; count = 0; buffer = garbage }

-- `(c->count >> 3) & 63`
abbrev pub place : ℕ → ℕ
place count = shr count 3 % 64

unfoldable pub sha1_update : Sha1 → Bytes → Sha1
unfolding absorb
sha1_update c text =
    let p =
      absorb sha1_transform (record { bytes = c.buffer; fill = place c.count; state = c.state })
        text in
    record { state = p.state; count = (c.count + length text * 8) % 2 ^ 64; buffer = p.bytes }

-- The loop of `sha1_final`; fewer than 64 zeros are put in.
unfoldable pub sha1_zeros : ℕ → Sha1 → Sha1
sha1_zeros zero c = c
sha1_zeros (suc f) c =
    let rest = sha1_zeros f (sha1_update c (0 ∷ [])) in if place c.count == 56 then c else rest

-- `(state >> ((3 - (i & 3)) * 8)) & 255` for the four bytes of a word.
abbrev pub big_endian : ℕ → Bytes
big_endian w = shr w 24 % 256 ∷ shr w 16 % 256 ∷ shr w 8 % 256 ∷ w % 256 ∷ []

unfoldable pub five_bytes : Five → Bytes
five_bytes s =
    big_endian s.a ++ (big_endian s.b ++ (big_endian s.c ++ (big_endian s.d ++ big_endian s.e)))

unfoldable pub sha1_final : Sha1 → Bytes
sha1_final c =
    five_bytes
      (sha1_update (sha1_zeros 64 (sha1_update c (0x80 ∷ []))) (length_bytes c.count)).state

-- `sha1`. The buffer is not initialised; what it holds has no effect.
unfoldable pub sha1 : Bytes → Bytes → Bytes
sha1 garbage s = sha1_final (sha1_update (sha1_init garbage) s)
