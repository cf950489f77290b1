-- ===== src/Mysql/Sha1/Standard.antt =====
-- runtime/vader_mysql.c: the transform, the constants and the byte order are those of FIPS 180-4.
use vader_langue.Prelude.{
  ℕ, zero, suc, ◌*◌, ◌%◌, ◌^◌, ◌≡◌, refl, ap, ◌∙◌, List, [], ◌∷◌, ◌++◌, Bytes, length, take, drop,
}
use vader_langue.Scram.Sha256.Buffer.{length_bytes}
use vader_langue.Scram.Sha256.Standard.{add32-sum5, words-block_words, length_bytes-high_to_low}
use vader_langue.Digest.Blocks.{hash_blocks, block_count, padded}
use vader_langue.Digest.Roots.{root_word}
use vader_langue.Digest.Fips.{
  Working, block_words, sha1_schedule, sha1_choice, sha1_parity, sha1_most, sha1_step, sha1_steps,
  sha1_block, sha1_start, sha1_octets, sha1_of,
}
use vader_langue.Mysql.Sha1.{
  Five, expand, rotl, step, steps, five_add, choose, parity, majority, sha1_transform, five_bytes,
  sha1,
}
use vader_langue.Mysql.Sha1.Blocks.{sha1_blocks, sha1-blocks}

expand-sha1_schedule : (n : ℕ) (m : List ℕ) → expand n m ≡ sha1_schedule n m
unfolding expand sha1_schedule
expand-sha1_schedule zero m = refl
expand-sha1_schedule (suc n) m = expand-sha1_schedule n (m ++ _ ∷ [])

abbrev five_of : Working → Five
five_of v = record { a = v.a; b = v.b; c = v.c; d = v.d; e = v.e }

step-sha1_step :
    (f : ℕ → ℕ → ℕ → ℕ) (k w : ℕ) (v : Working)
    → step f k w (five_of v) ≡ five_of (sha1_step f k w v)
step-sha1_step f k w v = rw (add32-sum5 (rotl v.a 5) (f v.b v.c v.d) v.e k w) refl

steps-sha1_steps :
    (f : ℕ → ℕ → ℕ → ℕ) (k : ℕ) (ws : List ℕ) (v : Working)
    → steps f k ws (five_of v) ≡ five_of (sha1_steps f k ws v)
unfolding steps sha1_steps
steps-sha1_steps f k [] v = refl
steps-sha1_steps f k (w ∷ ws) v =
    ap (steps f k ws) (step-sha1_step f k w v) ∙ steps-sha1_steps f k ws (sha1_step f k w v)

-- The four loops over the words of a block.
abbrev loops : List ℕ → Five → Five
loops w v = steps parity 0xCA62C1D6 (drop 60 w) (
    steps majority 0x8F1BBCDC (take 20 (drop 40 w))
      (steps parity 0x6ED9EBA1 (take 20 (drop 20 w)) (steps choose 0x5A827999 (take 20 w) v)))

abbrev fips_loops : List ℕ → Working → Working
fips_loops w v = sha1_steps sha1_parity (root_word 10) (drop 60 w) (
    sha1_steps sha1_most (root_word 5) (take 20 (drop 40 w)) (
      sha1_steps sha1_parity (root_word 3) (take 20 (drop 20 w))
        (sha1_steps sha1_choice (root_word 2) (take 20 w) v)))

loops-fips_loops : (w : List ℕ) (v : Working) → loops w (five_of v) ≡ five_of (fips_loops w v)
unfolding root_word
loops-fips_loops w v =
    rw
      (
        steps-sha1_steps sha1_choice 0x5A827999 (take 20 w) v,
        steps-sha1_steps sha1_parity 0x6ED9EBA1 (take 20 (drop 20 w)) _,
        steps-sha1_steps sha1_most 0x8F1BBCDC (take 20 (drop 40 w)) _,
        steps-sha1_steps sha1_parity 0xCA62C1D6 (drop 60 w) _,
      )
      refl

transform-sha1_block :
    (v : Working) (b : Bytes) → sha1_transform (five_of v) b ≡ five_of (sha1_block v b)
unfolding sha1_transform sha1_block
transform-sha1_block v b =
    ap (λ w. five_add (five_of v) (loops w (five_of v)))
      (ap (expand 64) (words-block_words 16 0 b) ∙ expand-sha1_schedule 64 (block_words 16 0 b))
    ∙ ap (five_add (five_of v)) (loops-fips_loops (sha1_schedule 64 (block_words 16 0 b)) v)

hash_blocks-sha1_block :
    (n : ℕ) (v : Working) (m : Bytes)
    → hash_blocks sha1_transform n (five_of v) m ≡ five_of (hash_blocks sha1_block n v m)
unfolding hash_blocks
hash_blocks-sha1_block zero v m = refl
hash_blocks-sha1_block (suc n) v m =
    ap (λ s. hash_blocks sha1_transform n s (drop 64 m)) (transform-sha1_block v (take 64 m))
    ∙ hash_blocks-sha1_block n (sha1_block v (take 64 m)) (drop 64 m)

five_bytes-sha1_octets : (v : Working) → five_bytes (five_of v) ≡ sha1_octets v
unfolding five_bytes
five_bytes-sha1_octets v = refl

sha1_blocks-sha1_of : (s : Bytes) → sha1_blocks s ≡ sha1_of s
sha1_blocks-sha1_of s =
    let blocks = block_count (length s) in
    ap five_bytes (hash_blocks-sha1_block blocks sha1_start (padded length_bytes s))
    ∙ five_bytes-sha1_octets (hash_blocks sha1_block blocks sha1_start (padded length_bytes s))
    ∙ ap (λ t. sha1_octets (hash_blocks sha1_block blocks sha1_start (padded (λ n. t) s)))
        (length_bytes-high_to_low (length s * 8 % 2 ^ 64))

-- The hash of a text is SHA-1 of FIPS 180-4, whose constants are square roots, whatever the 64 bytes
-- of the context's buffer were before.
pub sha1-standard : (garbage s : Bytes) → length garbage ≡ 64 → sha1 garbage s ≡ sha1_of s
sha1-standard garbage s h = sha1-blocks garbage s h ∙ sha1_blocks-sha1_of s
