-- ===== src/Digest/Blocks.antt =====
-- The description of a hash by blocks: a text is cut into blocks of 64 bytes, which are transformed one
-- after another.
use vader_langue.Prelude.{
  ℕ, suc, zero, ◌+◌, ◌-◌, ◌*◌, ◌/◌, ◌%◌, ◌^◌, ◌∷◌, ◌++◌, replicate, ◌≡◌, refl, Bytes, length, take,
  drop,
}

unfoldable pub hash_blocks : {S : Type 0} → (S → Bytes → S) → ℕ → S → Bytes → S
hash_blocks transform zero s m = s
hash_blocks transform (suc n) s m = hash_blocks transform n (transform s (take 64 m)) (drop 64 m)

pub hash_blocks-suc :
    {S : Type 0} (transform : S → Bytes → S) (n : ℕ) (s : S) (m : Bytes)
    → hash_blocks transform (suc n) s m
      ≡ hash_blocks transform n (transform s (take 64 m)) (drop 64 m)
unfolding hash_blocks
hash_blocks-suc transform n s m = refl

-- The number of blocks, with room for the byte 0x80 and the 8 bytes of the length.
abbrev pub block_count : ℕ → ℕ
block_count len = (len + 72) / 64

-- A 1 bit, zeros, and the length in bits, as `encode` writes it.
abbrev pub padded : (ℕ → Bytes) → Bytes → Bytes
padded encode s =
    s
    ++ (0x80
        ∷ (replicate (64 * block_count (length s) - length s - 9) 0
            ++ encode (length s * 8 % 2 ^ 64)))
