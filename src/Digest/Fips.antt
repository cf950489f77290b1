-- ===== src/Digest/Fips.antt =====
-- SHA-256 and SHA-1 as FIPS 180-4 describes them, for messages that are a whole number of bytes.
use Prim.Native.Nat.{bit_or, bit_and, bit_xor}
use vader_langue.Prelude.{
  ℕ, zero, suc, ◌+◌, ◌-◌, ◌*◌, ◌/◌, ◌%◌, ◌^◌, List, [], ◌∷◌, ◌++◌, Bytes, length, map, take, drop,
  get_or,
}
use vader_langue.Digest.Blocks.{hash_blocks, block_count, padded}
use vader_langue.Digest.Roots.{root_fraction, root_word, primes}
use vader_langue.Digest.Words.{right, left, complement, sum2, sum4, sum5, high_to_low}

-- The first `n` words of a block from byte `j` on, each with its highest byte first.
unfoldable pub block_words : ℕ → ℕ → Bytes → List ℕ
block_words zero j b = []
block_words (suc n) j b =
    bit_or
      (bit_or (bit_or (get_or b j 0 * 2 ^ 24 % 2 ^ 32) (get_or b (j + 1) 0 * 2 ^ 16 % 2 ^ 32))
        (get_or b (j + 2) 0 * 2 ^ 8 % 2 ^ 32))
      (get_or b (j + 3) 0)
    ∷ block_words n (j + 4) b

abbrev pub choice : ℕ → ℕ → ℕ → ℕ
choice x y z = bit_xor (bit_and x y) (bit_and (complement x) z)

abbrev pub most : ℕ → ℕ → ℕ → ℕ
most x y z = bit_xor (bit_xor (bit_and x y) (bit_and x z)) (bit_and y z)

abbrev pub big_sigma0 : ℕ → ℕ
big_sigma0 x = bit_xor (bit_xor (right 2 x) (right 13 x)) (right 22 x)

abbrev pub big_sigma1 : ℕ → ℕ
big_sigma1 x = bit_xor (bit_xor (right 6 x) (right 11 x)) (right 25 x)

abbrev pub small_sigma0 : ℕ → ℕ
small_sigma0 x = bit_xor (bit_xor (right 7 x) (right 18 x)) (x / 2 ^ 3)

abbrev pub small_sigma1 : ℕ → ℕ
small_sigma1 x = bit_xor (bit_xor (right 17 x) (right 19 x)) (x / 2 ^ 10)

-- `n` more words of the message schedule behind those before number `t`.
unfoldable pub message_schedule : ℕ → List ℕ → List ℕ
message_schedule zero w = w
message_schedule (suc n) w =
    let t = length w in
    message_schedule n (
      w
      ++ sum4 (small_sigma1 (get_or w (t - 2) 0)) (get_or w (t - 7) 0)
          (small_sigma0 (get_or w (t - 15) 0)) (get_or w (t - 16) 0)
        ∷ [])

-- The working variables of SHA-256.
pub record Eight : Type 0 where
  pub a : ℕ
  pub b : ℕ
  pub c : ℕ
  pub d : ℕ
  pub e : ℕ
  pub f : ℕ
  pub g : ℕ
  pub h : ℕ

abbrev pub eight_step : ℕ → ℕ → Eight → Eight
eight_step k w v =
    let t1 = sum5 v.h (big_sigma1 v.e) (choice v.e v.f v.g) k w in
    let t2 = sum2 (big_sigma0 v.a) (most v.a v.b v.c) in
    record { a = sum2 t1 t2; b = v.a; c = v.b; d = v.c; e = sum2 v.d t1; f = v.e; g = v.f; h = v.g }

unfoldable pub eight_steps : List ℕ → List ℕ → Eight → Eight
eight_steps (k ∷ ks) (w ∷ ws) v = eight_steps ks ws (eight_step k w v)
eight_steps ks ws v = v

-- The hash value behind a block.
abbrev pub eight_sum : Eight → Eight → Eight
eight_sum s v = record {
  a = sum2 s.a v.a;
  b = sum2 s.b v.b;
  c = sum2 s.c v.c;
  d = sum2 s.d v.d;
  e = sum2 s.e v.e;
  f = sum2 s.f v.f;
  g = sum2 s.g v.g;
  h = sum2 s.h v.h;
}

-- The constants are the fractional parts of the cube roots of the first 64 primes, the initial hash
-- value those of the square roots of the first eight.
unfoldable pub sha256_block : Eight → Bytes → Eight
unfolding block_words message_schedule eight_steps root_fraction
sha256_block s b =
    eight_sum s
      (eight_steps (map (root_fraction 3) primes) (message_schedule 48 (block_words 16 0 b)) s)

unfoldable pub sha256_start : Eight
unfolding root_fraction
sha256_start = record {
  a = root_fraction 2 2;
  b = root_fraction 2 3;
  c = root_fraction 2 5;
  d = root_fraction 2 7;
  e = root_fraction 2 11;
  f = root_fraction 2 13;
  g = root_fraction 2 17;
  h = root_fraction 2 19;
}

abbrev pub eight_octets : Eight → Bytes
eight_octets v =
    high_to_low 4 v.a
    ++ (high_to_low 4 v.b
        ++ (high_to_low 4 v.c
            ++ (high_to_low 4 v.d
                ++ (high_to_low 4 v.e
                    ++ (high_to_low 4 v.f ++ (high_to_low 4 v.g ++ high_to_low 4 v.h))))))

abbrev pub sha256_of : Bytes → Bytes
sha256_of s =
    eight_octets
      (hash_blocks sha256_block (block_count (length s)) sha256_start (padded (high_to_low 8) s))

-- The working variables of SHA-1.
pub record Working : Type 0 where
  pub a : ℕ
  pub b : ℕ
  pub c : ℕ
  pub d : ℕ
  pub e : ℕ

unfoldable pub sha1_schedule : ℕ → List ℕ → List ℕ
sha1_schedule zero w = w
sha1_schedule (suc n) w =
    let t = length w in
    sha1_schedule n (
      w
      ++ left 1 (
          bit_xor
            (bit_xor (bit_xor (get_or w (t - 3) 0) (get_or w (t - 8) 0)) (get_or w (t - 14) 0))
            (get_or w (t - 16) 0))
        ∷ [])

-- Ch and Maj in the forms `z ⊕ (x ∧ (y ⊕ z))` and `(x ∧ y) ∨ (z ∧ (x ∨ y))`.
abbrev pub sha1_choice : ℕ → ℕ → ℕ → ℕ
sha1_choice x y z = bit_xor (bit_and x (bit_xor y z)) z

abbrev pub sha1_parity : ℕ → ℕ → ℕ → ℕ
sha1_parity x y z = bit_xor (bit_xor x y) z

abbrev pub sha1_most : ℕ → ℕ → ℕ → ℕ
sha1_most x y z = bit_or (bit_and x y) (bit_and z (bit_or x y))

abbrev pub sha1_step : (ℕ → ℕ → ℕ → ℕ) → ℕ → ℕ → Working → Working
sha1_step f k w v = record {
  a = sum5 (left 5 v.a) (f v.b v.c v.d) v.e k w;
  b = v.a;
  c = left 30 v.b;
  d = v.c;
  e = v.d;
}

-- The steps of one function and constant.
unfoldable pub sha1_steps : (ℕ → ℕ → ℕ → ℕ) → ℕ → List ℕ → Working → Working
sha1_steps f k [] v = v
sha1_steps f k (w ∷ ws) v = sha1_steps f k ws (sha1_step f k w v)

-- Twenty steps for each constant, the square roots of 2, 3, 5 and 10.
unfoldable pub sha1_block : Working → Bytes → Working
unfolding block_words sha1_schedule sha1_steps root_word
sha1_block s b =
    let w = sha1_schedule 64 (block_words 16 0 b) in
    let v1 = sha1_steps sha1_choice (root_word 2) (take 20 w) s in
    let v2 = sha1_steps sha1_parity (root_word 3) (take 20 (drop 20 w)) v1 in
    let v3 = sha1_steps sha1_most (root_word 5) (take 20 (drop 40 w)) v2 in
    let v4 = sha1_steps sha1_parity (root_word 10) (drop 60 w) v3 in
    record {
      a = sum2 s.a v4.a;
      b = sum2 s.b v4.b;
      c = sum2 s.c v4.c;
      d = sum2 s.d v4.d;
      e = sum2 s.e v4.e;
    }

abbrev pub sha1_start : Working
sha1_start = record {
  a = 0x67452301;
  b = 0xefcdab89;
  c = 0x98badcfe;
  d = 0x10325476;
  e = 0xc3d2e1f0;
}

abbrev pub sha1_octets : Working → Bytes
sha1_octets v =
    high_to_low 4 v.a
    ++ (high_to_low 4 v.b ++ (high_to_low 4 v.c ++ (high_to_low 4 v.d ++ high_to_low 4 v.e)))

abbrev pub sha1_of : Bytes → Bytes
sha1_of s =
    sha1_octets
      (hash_blocks sha1_block (block_count (length s)) sha1_start (padded (high_to_low 8) s))
