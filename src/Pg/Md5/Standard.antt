-- ===== src/Pg/Md5/Standard.antt =====
-- runtime/vader_pg.c: the transform, the constants, the byte order and the digits are those of RFC 1321.
use native.Mathlib.Nat.{zero-add}
use vader_langue.Prelude.{
  ℕ, zero, suc, ◌+◌, ◌*◌, ◌%◌, ◌^◌, ◌≡◌, ◌<◌, ◌≤◌, refl, ap, ◌∙◌, arith, List, [], ◌∷◌, Bytes,
  length, take, drop, get_or,
}
use vader_langue.Scram.Sha256.{add32}
use vader_langue.Digest.Blocks.{hash_blocks, block_count, padded}
use vader_langue.Digest.Roots.{sine_word}
use vader_langue.Digest.Words.{sum4, low_to_high}
use vader_langue.Digest.Rfc1321.{
  Registers, low_words, amount_at, numbered, operations, registers_block, registers_start,
  registers_octets, md5_of, hex_text,
}
use vader_langue.Pg.Md5.{
  Four, md5_k, md5_r, md5_lrot, md5_words, md5_f, md5_g, md5_round, md5_rounds, four_add, md5_block,
  low_first, four_bytes, md5, md5_hex,
}
use vader_langue.Pg.Md5.Blocks.{md5_blocks, md5-blocks}

-- The values of a function at `n` numbers from `i` on.
abbrev table : ℕ → ℕ → (ℕ → ℕ) → List ℕ
table zero i f = []
table (suc n) i f = f i ∷ table n (i + 1) f

get_or-table : (n i j : ℕ) (f : ℕ → ℕ) → j < n → get_or (table n i f) j 0 ≡ f (i + j)
get_or-table zero i j f h = absurd (omega arith)
get_or-table (suc n) i zero f h = ap f (omega arith)
get_or-table (suc n) i (suc j) f h = get_or-table n (i + 1) j f (omega arith) ∙ ap f (omega arith)

md5_k-table : md5_k ≡ table 64 0 (λ i. sine_word (i + 1))
unfolding md5_k sine_word
md5_k-table = refl

md5_r-table : md5_r ≡ table 64 0 amount_at
unfolding md5_r
md5_r-table = refl

md5_k-sine_word : (i : ℕ) → i < 64 → get_or md5_k i 0 ≡ sine_word (i + 1)
md5_k-sine_word i h =
    ap (λ l. get_or l i 0) md5_k-table
    ∙ get_or-table 64 0 i (λ i. sine_word (i + 1)) h
    ∙ ap sine_word (omega arith)

md5_r-amount_at : (i : ℕ) → i < 64 → get_or md5_r i 0 ≡ amount_at i
md5_r-amount_at i h =
    let from_zero : amount_at (0 + i) ≡ amount_at i = rw (zero-add) refl in
    ap (λ l. get_or l i 0) md5_r-table ∙ get_or-table 64 0 i amount_at h ∙ from_zero

add32-sum4 : (a b c d : ℕ) → add32 (add32 (add32 a b) c) d ≡ sum4 a b c d
add32-sum4 a b c d = omega arith

md5_words-low_words : (n j : ℕ) (b : Bytes) → md5_words n j b ≡ low_words n j b
unfolding md5_words low_words
md5_words-low_words zero j b = refl
md5_words-low_words (suc n) j b = rw (md5_words-low_words n (j + 4) b) refl

abbrev four_of : Registers → Four
four_of v = record { a = v.a; b = v.b; c = v.c; d = v.d }

md5_round-numbered :
    (m : List ℕ) (i : ℕ) (v : Registers)
    → i < 64
    → md5_round m i (four_of v) ≡ four_of (numbered m i v)
unfolding md5_lrot
md5_round-numbered m i v h =
    let at : ℕ → ℕ → Four = λ k r. record {
      a = v.d;
      b =
          add32 v.b
            (md5_lrot (add32 (add32 (add32 v.a (md5_f i (four_of v))) k) (get_or m (md5_g i) 0)) r);
      c = v.b;
      d = v.c;
    } in
    ap (λ k. at k (get_or md5_r i 0)) (md5_k-sine_word i h)
    ∙ ap (at (sine_word (i + 1))) (md5_r-amount_at i h)
    ∙ ap (λ s. record { a = v.d; b = add32 v.b (md5_lrot s (amount_at i)); c = v.b; d = v.c })
        (add32-sum4 v.a (md5_f i (four_of v)) (sine_word (i + 1)) (get_or m (md5_g i) 0))

md5_rounds-operations :
    (n i : ℕ) (m : List ℕ) (v : Registers)
    → i + n ≤ 64
    → md5_rounds n i m (four_of v) ≡ four_of (operations n i m v)
unfolding md5_rounds operations
md5_rounds-operations zero i m v h = refl
md5_rounds-operations (suc n) i m v h =
    ap (md5_rounds n (i + 1) m) (md5_round-numbered m i v (omega arith))
    ∙ md5_rounds-operations n (i + 1) m (numbered m i v) (omega arith)

md5_block-registers_block :
    (v : Registers) (b : Bytes) → md5_block (four_of v) b ≡ four_of (registers_block v b)
unfolding md5_block registers_block
md5_block-registers_block v b =
    ap (λ m. four_add (four_of v) (md5_rounds 64 0 m (four_of v))) (md5_words-low_words 16 0 b)
    ∙ ap (four_add (four_of v)) (md5_rounds-operations 64 0 (low_words 16 0 b) v (omega arith))

hash_blocks-registers_block :
    (n : ℕ) (v : Registers) (m : Bytes)
    → hash_blocks md5_block n (four_of v) m ≡ four_of (hash_blocks registers_block n v m)
unfolding hash_blocks
hash_blocks-registers_block zero v m = refl
hash_blocks-registers_block (suc n) v m =
    ap (λ s. hash_blocks md5_block n s (drop 64 m)) (md5_block-registers_block v (take 64 m))
    ∙ hash_blocks-registers_block n (registers_block v (take 64 m)) (drop 64 m)

four_bytes-registers_octets : (v : Registers) → four_bytes (four_of v) ≡ registers_octets v
unfolding four_bytes
four_bytes-registers_octets v = refl

low_first-low_to_high : (n : ℕ) → low_first n ≡ low_to_high 8 n
low_first-low_to_high n = refl

md5_blocks-md5_of : (s : Bytes) → md5_blocks s ≡ md5_of s
md5_blocks-md5_of s =
    let blocks = block_count (length s) in
    ap four_bytes (hash_blocks-registers_block blocks registers_start (padded low_first s))
    ∙ four_bytes-registers_octets
        (hash_blocks registers_block blocks registers_start (padded low_first s))
    ∙ ap
        (λ t.
          registers_octets (hash_blocks registers_block blocks registers_start (padded (λ n. t) s)))
        (low_first-low_to_high (length s * 8 % 2 ^ 64))

-- The hash of a text is MD5 of RFC 1321, whose constants are sines, whatever the 64 bytes of the
-- context's buffer were before.
pub md5-standard : (garbage s : Bytes) → length garbage ≡ 64 → md5 garbage s ≡ md5_of s
md5-standard garbage s h = md5-blocks garbage s h ∙ md5_blocks-md5_of s

pub md5_hex-hex_text : (s : Bytes) → md5_hex s ≡ hex_text s
unfolding md5_hex hex_text
md5_hex-hex_text [] = refl
md5_hex-hex_text (x ∷ s) = rw (md5_hex-hex_text s) refl
