-- ===== src/Scram/Sha256/Padding.antt =====
-- The description of SHA-256 in FIPS 180-4 that runtime/vader_scram.c is compared with: a padded message
-- is cut into blocks of 64 bytes, which are transformed one after another.
use vader_langue.Prelude.{
  ℕ, suc, zero, ◌+◌, ◌-◌, ◌*◌, ◌/◌, ◌%◌, ◌^◌, ◌≡◌, ◌≤◌, refl, ap, ◌∙◌, arith, List, [], ◌∷◌, ◌++◌,
  Bytes, length, take, drop, replicate, length-drop, take-all,
}
use vader_langue.Scram.Sha256.{transform, iv, digest}
use vader_langue.Scram.Sha256.Buffer.{length_bytes}

-- The first `n` blocks of a text.
unfoldable pub hash_blocks : ℕ → List ℕ → Bytes → List ℕ
hash_blocks zero s m = s
hash_blocks (suc n) s m = hash_blocks n (transform s (take 64 m)) (drop 64 m)

-- The number of blocks, with room for the byte 0x80 and the 8 bytes of the length.
abbrev pub block_count : ℕ → ℕ
block_count len = (len + 72) / 64

-- A 1 bit, zeros, and the length in bits.
abbrev pub pad_bytes : ℕ → Bytes
pad_bytes len =
    0x80 ∷ (replicate (64 * block_count len - len - 9) 0 ++ length_bytes (len * 8 % 2 ^ 64))

abbrev pub standard : Bytes → Bytes
standard s = digest (hash_blocks (block_count (length s)) iv (s ++ pad_bytes (length s)))

zero_plus : (k : ℕ) → 0 + k ≡ k
zero_plus k = omega arith

suc_plus : (n k : ℕ) → suc n + k ≡ suc (n + k)
suc_plus n k = omega arith

take_front : (n : ℕ) (f t : Bytes) → n ≤ length f → take n (f ++ t) ≡ take n f
take_front zero f t h = refl
take_front (suc n) [] t h = absurd (omega arith)
take_front (suc n) (c ∷ f) t h = ap (λ l. c ∷ l) (take_front n f t (omega arith))

drop_front : (n : ℕ) (f t : Bytes) → n ≤ length f → drop n (f ++ t) ≡ drop n f ++ t
drop_front zero f t h = refl
drop_front (suc n) [] t h = absurd (omega arith)
drop_front (suc n) (c ∷ f) t h = drop_front n f t (omega arith)

pub hash_blocks-append :
    (n k : ℕ) (s : List ℕ) (f t : Bytes)
    → length f ≡ n * 64
    → hash_blocks (n + k) s (f ++ t) ≡ hash_blocks k (hash_blocks n s f) t
unfolding hash_blocks
hash_blocks-append zero k s [] t h = ap (λ m. hash_blocks m s t) (zero_plus k)
hash_blocks-append zero k s (c ∷ f) t h = absurd (omega arith)
hash_blocks-append (suc n) k s f t h =
    ap (λ m. hash_blocks m s (f ++ t)) (suc_plus n k)
    ∙ ap (λ b. hash_blocks (n + k) (transform s b) (drop 64 (f ++ t)))
        (take_front 64 f t (omega arith))
    ∙ ap (λ r. hash_blocks (n + k) (transform s (take 64 f)) r) (drop_front 64 f t (omega arith))
    ∙ hash_blocks-append n k (transform s (take 64 f)) (drop 64 f) t
        (length-drop 64 f ∙ omega arith)

-- The last block.
pub hash_blocks_one : (s : List ℕ) (b : Bytes) → length b ≡ 64 → hash_blocks 1 s b ≡ transform s b
hash_blocks_one s b h = unfold hash_blocks in ap (λ c. transform s c) (take-all 64 b (omega arith))
