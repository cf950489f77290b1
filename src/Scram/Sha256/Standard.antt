-- ===== src/Scram/Sha256/Standard.antt =====
-- runtime/vader_scram.c: the transform, the constants and the byte order are those of FIPS 180-4.
use vader_langue.Prelude.{
  ℕ, zero, suc, ◌+◌, ◌*◌, ◌%◌, ◌^◌, ◌≡◌, refl, ap, ◌∙◌, arith, List, [], ◌∷◌, ◌++◌, Bytes, length,
  take, drop, map,
}
use vader_langue.Scram.Sha256.{
  Vars, add32, words, schedule, ep1, ch, round, rounds, load, add_to, sha256_k, iv, transform,
  digest, sha256,
}
use vader_langue.Scram.Sha256.Buffer.{length_bytes}
use vader_langue.Scram.Sha256.Padding.{standard}
use vader_langue.Scram.Sha256.Padding
use vader_langue.Scram.Sha256.Final.{sha256-blocks}
use vader_langue.Digest.Blocks.{hash_blocks, block_count, padded}
use vader_langue.Digest.Roots.{root_fraction, primes}
use vader_langue.Digest.Words.{sum4, sum5, high_to_low}
use vader_langue.Digest.Fips.{
  Eight, block_words, message_schedule, eight_step, eight_steps, sha256_block, sha256_start,
  eight_octets, sha256_of,
}

add32-sum4 : (a b c d : ℕ) → add32 (add32 (add32 a b) c) d ≡ sum4 a b c d
add32-sum4 a b c d = omega arith

pub add32-sum5 : (a b c d e : ℕ) → add32 (add32 (add32 (add32 a b) c) d) e ≡ sum5 a b c d e
add32-sum5 a b c d e = omega arith

pub words-block_words : (n j : ℕ) (b : Bytes) → words n j b ≡ block_words n j b
unfolding words block_words
words-block_words zero j b = refl
words-block_words (suc n) j b = rw (words-block_words n (j + 4) b) refl

schedule-message_schedule : (n : ℕ) (m : List ℕ) → schedule n m ≡ message_schedule n m
unfolding schedule message_schedule
schedule-message_schedule zero m = refl
schedule-message_schedule (suc n) m =
    ap (λ w. schedule n (m ++ w ∷ [])) (add32-sum4 _ _ _ _)
    ∙ schedule-message_schedule n (m ++ _ ∷ [])

abbrev vars_of : Eight → Vars
vars_of v = record { a = v.a; b = v.b; c = v.c; d = v.d; e = v.e; f = v.f; g = v.g; h = v.h }

abbrev list_of : Eight → List ℕ
list_of v = v.a ∷ v.b ∷ v.c ∷ v.d ∷ v.e ∷ v.f ∷ v.g ∷ v.h ∷ []

round-eight_step : (k w : ℕ) (v : Eight) → round k w (vars_of v) ≡ vars_of (eight_step k w v)
round-eight_step k w v = rw (add32-sum5 v.h (ep1 v.e) (ch v.e v.f v.g) k w) refl

rounds-eight_steps :
    (ks ws : List ℕ) (v : Eight) → rounds ks ws (vars_of v) ≡ vars_of (eight_steps ks ws v)
unfolding rounds eight_steps
rounds-eight_steps [] ws v = refl
rounds-eight_steps (k ∷ ks) [] v = refl
rounds-eight_steps (k ∷ ks) (w ∷ ws) v =
    ap (rounds ks ws) (round-eight_step k w v) ∙ rounds-eight_steps ks ws (eight_step k w v)

sha256_k-primes : sha256_k ≡ map (root_fraction 3) primes
unfolding sha256_k root_fraction
sha256_k-primes = refl

iv-sha256_start : iv ≡ list_of sha256_start
unfolding iv sha256_start
iv-sha256_start = refl

transform-sha256_block :
    (v : Eight) (b : Bytes) → transform (list_of v) b ≡ list_of (sha256_block v b)
unfolding transform sha256_block add_to load
transform-sha256_block v b =
    let w =
      ap (schedule 48) (words-block_words 16 0 b)
      ∙ schedule-message_schedule 48 (block_words 16 0 b) in
    ap (λ ks. add_to (list_of v) (rounds ks (schedule 48 (words 16 0 b)) (vars_of v)))
      sha256_k-primes
    ∙ ap (λ ws. add_to (list_of v) (rounds (map (root_fraction 3) primes) ws (vars_of v))) w
    ∙ ap (add_to (list_of v)) (
        rounds-eight_steps (map (root_fraction 3) primes) (message_schedule 48 (block_words 16 0 b))
          v)

hash_blocks-sha256_block :
    (n : ℕ) (v : Eight) (m : Bytes)
    → Padding.hash_blocks n (list_of v) m ≡ list_of (hash_blocks sha256_block n v m)
unfolding Padding.hash_blocks hash_blocks
hash_blocks-sha256_block zero v m = refl
hash_blocks-sha256_block (suc n) v m =
    ap (λ s. Padding.hash_blocks n s (drop 64 m)) (transform-sha256_block v (take 64 m))
    ∙ hash_blocks-sha256_block n (sha256_block v (take 64 m)) (drop 64 m)

digest-eight_octets : (v : Eight) → digest (list_of v) ≡ eight_octets v
unfolding digest
digest-eight_octets v = refl

pub length_bytes-high_to_low : (n : ℕ) → length_bytes n ≡ high_to_low 8 n
length_bytes-high_to_low n = refl

standard-sha256_of : (s : Bytes) → standard s ≡ sha256_of s
standard-sha256_of s =
    let blocks = block_count (length s) in
    ap (λ l. digest (Padding.hash_blocks blocks l (padded length_bytes s))) iv-sha256_start
    ∙ ap digest (hash_blocks-sha256_block blocks sha256_start (padded length_bytes s))
    ∙ digest-eight_octets (hash_blocks sha256_block blocks sha256_start (padded length_bytes s))
    ∙ ap (λ t. eight_octets (hash_blocks sha256_block blocks sha256_start (padded (λ n. t) s)))
        (length_bytes-high_to_low (length s * 8 % 2 ^ 64))

-- The hash of a text is SHA-256 of FIPS 180-4, whose constants are the roots of the first primes,
-- whatever the 64 bytes of the context's buffer were before.
pub sha256-standard : (garbage s : Bytes) → length garbage ≡ 64 → sha256 garbage s ≡ sha256_of s
sha256-standard garbage s h = sha256-blocks garbage s h ∙ standard-sha256_of s
