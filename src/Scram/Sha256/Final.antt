-- ===== src/Scram/Sha256/Final.antt =====
-- runtime/vader_scram.c: sha256_final pads what sha256_update held back, and vader_scram_sha256 computes
-- the standard's hash.
use vader_langue.Prelude.{
  ℕ, suc, zero, ◌+◌, ◌-◌, ◌*◌, ◌%◌, ◌^◌, ◌≡◌, ◌≤◌, refl, ap, ◌∙◌, sym, arith, [], ◌∷◌, ◌++◌,
  append_assoc, Bool-cases, inl, inr, ltb, true, false, ltb→lt, Bytes, length, length-append,
  length-set, length-take, length-drop, set, take, drop, replicate, take-all,
}
use vader_langue.Scram.Sha256.{
  Ctx, transform, iv, digest, init, update, final, sha256, zero_to, put_length,
}
use vader_langue.Scram.Sha256.Buffer.{length_bytes, length-zero_to, take-zero_to, put_length_lem}
use vader_langue.Scram.Sha256.Padding.{
  hash_blocks, standard, pad_bytes, block_count, hash_blocks-append, hash_blocks_one,
}
use vader_langue.Scram.Sha256.Stream.{After, stored, update-After, init-After}

-- The buffer with the byte 0x80 and `m` zeros behind what was held back.
abbrev filled : Ctx → ℕ → Bytes
filled x m = zero_to m (x.datalen + 1) (set x.buf x.datalen 0x80)

put_length_size : (xs : Bytes) (n : ℕ) → length xs ≡ 64 → length (put_length xs n) ≡ 64
put_length_size xs n h = omega (
  arith,
  ap length (put_length_lem xs n h),
  length-append (take 56 xs) (length_bytes n),
  length-take 56 xs,
)

ltb-false : (a b : ℕ) → ltb a b ≡ false → b ≤ a
ltb-false a b h = ground arith

suc_56 : (m : ℕ) → suc m + 56 ≡ suc (m + 56)
suc_56 m = omega arith

zeros : (m : ℕ) → replicate {A = ℕ} (m + 56) 0 ≡ replicate m 0 ++ replicate 56 0
zeros zero = refl
zeros (suc m) = ap (λ k. replicate {A = ℕ} k 0) (suc_56 m) ∙ ap (λ l. 0 ∷ l) (zeros m)

module _ (x : Ctx) (s : Bytes) (a : After x s) where
  filled_size : (m : ℕ) → length (filled x m) ≡ 64
  filled_size m =
      length-zero_to m (x.datalen + 1) (set x.buf x.datalen 0x80)
      ∙ length-set x.buf x.datalen 0x80
      ∙ a.size

  take-filled :
      (m k : ℕ)
      → x.datalen + 1 + m ≡ k
      → k ≤ 64
      → take k (filled x m) ≡ a.rest ++ 0x80 ∷ replicate m 0
  take-filled m k e h =
      ap (λ j. take j (filled x m)) (sym e)
      ∙ take-zero_to m (x.datalen + 1) (set x.buf x.datalen 0x80)
          (omega (arith, length-set x.buf x.datalen 0x80, a.size))
      ∙ ap (λ l. l ++ replicate m 0) (stored x s 0x80 a)
      ∙ append_assoc a.rest (0x80 ∷ []) (replicate m 0)

  text_length : length s ≡ a.blocks * 64 + x.datalen
  text_length =
      ap length a.text ∙ length-append a.hashed a.rest ∙ omega (arith, a.full, a.rest_length)

  bit_length : (x.bitlen + x.datalen * 8) % 2 ^ 64 ≡ length s * 8 % 2 ^ 64
  bit_length = omega (arith, a.bits, text_length)

  -- The blocks that are left are those of the rest with its padding.
  standard_rest :
      (k : ℕ)
      → block_count (length s) ≡ a.blocks + k
      → standard s ≡ digest (hash_blocks k x.state (a.rest ++ pad_bytes (length s)))
  standard_rest k e = ap digest (
      ap (λ n. hash_blocks n iv (s ++ pad_bytes (length s))) e
      ∙ ap (λ t. hash_blocks (a.blocks + k) iv (t ++ pad_bytes (length s))) a.text
      ∙ ap (λ t. hash_blocks (a.blocks + k) iv t)
          (append_assoc a.hashed a.rest (pad_bytes (length s)))
      ∙ hash_blocks-append a.blocks k iv a.hashed (a.rest ++ pad_bytes (length s)) a.full
      ∙ ap (λ st. hash_blocks k st (a.rest ++ pad_bytes (length s))) (sym a.value))

  -- The padding, with the number of its zeros.
  rest_padded :
      (m : ℕ)
      → 64 * block_count (length s) - length s - 9 ≡ m
      → a.rest ++ pad_bytes (length s)
        ≡ (a.rest ++ 0x80 ∷ replicate m 0) ++ length_bytes ((x.bitlen + x.datalen * 8) % 2 ^ 64)
  rest_padded m e =
      ap (λ k. a.rest ++ 0x80 ∷ (replicate k 0 ++ length_bytes (length s * 8 % 2 ^ 64))) e
      ∙ ap (λ n. a.rest ++ 0x80 ∷ (replicate m 0 ++ length_bytes n)) (sym bit_length)
      ∙ sym (
          append_assoc a.rest (0x80 ∷ replicate m 0)
            (length_bytes ((x.bitlen + x.datalen * 8) % 2 ^ 64)))

  -- What is left fits one block.
  short_block :
      (m : ℕ)
      → x.datalen + 1 + m ≡ 56
      → put_length (filled x m) ((x.bitlen + x.datalen * 8) % 2 ^ 64)
        ≡ a.rest ++ pad_bytes (length s)
  short_block m e =
      put_length_lem (filled x m) _ (filled_size m)
      ∙ ap (λ l. l ++ length_bytes ((x.bitlen + x.datalen * 8) % 2 ^ 64))
          (take-filled m 56 e (omega arith))
      ∙ sym (rest_padded m (omega (arith, text_length, a.short)))

  final_short : ltb x.datalen 56 ≡ true → final x ≡ standard s
  final_short h =
      let m = 56 - (x.datalen + 1) in
      let l = ltb→lt x.datalen 56 h in
      let b = short_block m (omega arith) in
      let size : length (a.rest ++ pad_bytes (length s)) ≡ 64 =
        ap length (sym b) ∙ put_length_size (filled x m) _ (filled_size m) in
      unfold final in
      rw h (
        ap (λ t. digest t)
          (ap (λ t. transform x.state t) b
            ∙ sym (hash_blocks_one x.state (a.rest ++ pad_bytes (length s)) size))
        ∙ sym (standard_rest 1 (omega (arith, text_length))))

  -- What is left takes two blocks.
  long_blocks :
      (m : ℕ)
      → x.datalen + 1 + m ≡ 64
      → 56 ≤ x.datalen
      → filled x m ++ (replicate 56 0 ++ length_bytes ((x.bitlen + x.datalen * 8) % 2 ^ 64))
        ≡ a.rest ++ pad_bytes (length s)
  long_blocks m e h =
      let tail = length_bytes ((x.bitlen + x.datalen * 8) % 2 ^ 64) in
      ap (λ l. l ++ (replicate 56 0 ++ tail))
        (sym (take-all 64 (filled x m) (omega (arith, filled_size m)))
          ∙ take-filled m 64 e (omega arith))
      ∙ sym (append_assoc (a.rest ++ 0x80 ∷ replicate m 0) (replicate 56 0) tail)
      ∙ ap (λ l. l ++ tail)
          (append_assoc a.rest (0x80 ∷ replicate m 0) (replicate 56 0)
            ∙ ap (λ l. a.rest ++ 0x80 ∷ l) (sym (zeros m)))
      ∙ sym (rest_padded (m + 56) (omega (arith, text_length, a.short)))

  last_block :
      (b : Bytes) (n : ℕ)
      → length b ≡ 64
      → put_length (replicate 56 0 ++ drop 56 b) n ≡ replicate 56 0 ++ length_bytes n
  last_block b n h =
      put_length_lem (replicate 56 0 ++ drop 56 b) n
        (length-append (replicate 56 0) (drop 56 b) ∙ omega (arith, length-drop 56 b))

  final_long : ltb x.datalen 56 ≡ false → final x ≡ standard s
  final_long h =
      let m = 64 - (x.datalen + 1) in
      let g = ltb-false x.datalen 56 h in
      let b = filled x m in
      let last = replicate 56 0 ++ length_bytes ((x.bitlen + x.datalen * 8) % 2 ^ 64) in
      unfold final in
      rw h (
        ap (λ t. digest t)
          (ap (λ t. transform (transform x.state b) t)
              (last_block b ((x.bitlen + x.datalen * 8) % 2 ^ 64) (filled_size m))
            ∙ ap (λ t. transform t last) (sym (hash_blocks_one x.state b (filled_size m)))
            ∙ sym (hash_blocks_one (hash_blocks 1 x.state b) last refl)
            ∙ sym (hash_blocks-append 1 1 x.state b last (filled_size m))
            ∙ ap (λ t. hash_blocks 2 x.state t) (long_blocks m (omega (arith, a.short)) g))
        ∙ sym (standard_rest 2 (omega (arith, text_length, a.short))))

  final-standard : final x ≡ standard s
  final-standard = elim (Bool-cases (ltb x.datalen 56)) [
    | inl e ↦ final_short e
    | inr e ↦ final_long e
  ]

-- The text is padded and its blocks of 64 bytes are transformed in order, whatever the 64 bytes of the
-- context's buffer were before.
pub sha256-blocks : (garbage s : Bytes) → length garbage ≡ 64 → sha256 garbage s ≡ standard s
sha256-blocks garbage s h =
    unfold sha256 in
    final-standard (update (init garbage) s) s
      (update-After (init garbage) [] s (init-After garbage h))
