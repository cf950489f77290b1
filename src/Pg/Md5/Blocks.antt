-- ===== src/Pg/Md5/Blocks.antt =====
-- runtime/vader_pg.c: MD5 of a text, whose padding is put in byte by byte, transforms the blocks
-- of the padded text.
use vader_langue.Prelude.{
  ℕ, suc, zero, ◌+◌, ◌*◌, ◌%◌, ◌^◌, ◌≡◌, ◌≢◌, ◌≤◌, ◌<◌, refl, ap, sym, ◌∙◌, arith, true, [], ◌∷◌,
  ◌++◌, append_assoc, append-nil, Bytes, ◌==◌, ==_iff, ne→==, length, length-append, replicate,
}
use vader_langue.Digest.{Pending, absorb}
use vader_langue.Digest.Blocks.{hash_blocks, block_count, padded}
use vader_langue.Digest.Whole.{
  absorb-append, absorb-blocks, absorb_fill_mod, Pending-eq, zero_count, zero_count_lem,
  length-padded,
}
use vader_langue.Pg.Md5.{
  Four, Md5, low_first, md5_block, md5_iv, md5_init, md5_update, md5_zeros, md5_final, md5,
  four_bytes,
}

abbrev pub md5_blocks : Bytes → Bytes
md5_blocks s =
    four_bytes (hash_blocks md5_block (block_count (length s)) md5_iv (padded low_first s))

to_equal : (a b : ℕ) → a ≡ b → (a == b) ≡ true
to_equal a b h = (==_iff a b).1 h

not_yet : (p len z : ℕ) → p ≡ len % 64 → (len + suc z) % 64 ≡ 56 → suc z < 64 → p ≢ 56
not_yet p len z h e l q = omega arith

module _ (garbage : Bytes) where
  start : Pending Four
  start = record { bytes = garbage; fill = 0; state = md5_iv }

  after : Bytes → Pending Four
  after text = absorb md5_block start text

  -- The context is what the buffer is behind the text.
  record Tracks (c : Md5) (text : Bytes) : Type 0 where
    state : c.h ≡ (after text).state
    buffer : c.buf ≡ (after text).bytes
    fill : c.n ≡ (after text).fill
    count : c.len ≡ length text % 2 ^ 64

  after_fill : (text : Bytes) → (after text).fill ≡ length text % 64
  unfolding after start
  after_fill text = absorb_fill_mod md5_block text start (omega arith) ∙ omega arith

  pending :
      (c : Md5) (text : Bytes)
      → Tracks c text
      → record { bytes = c.buf; fill = c.n; state = c.h } ≡ after text
  pending c text t = Pending-eq _ (after text) t.buffer t.fill t.state

  init-Tracks : Tracks (md5_init garbage) []
  unfolding after start absorb
  init-Tracks = record { state = refl; buffer = refl; fill = refl; count = refl }

  joined :
      (c : Md5) (text more : Bytes)
      → Tracks c text
      → absorb md5_block (record { bytes = c.buf; fill = c.n; state = c.h }) more
        ≡ after (text ++ more)
  joined c text more t =
      ap (λ p. absorb md5_block p more) (pending c text t)
      ∙ unfold after in sym (absorb-append md5_block start text more)

  md5_update-Tracks :
      (c : Md5) (text more : Bytes) → Tracks c text → Tracks (md5_update c more) (text ++ more)
  unfolding md5_update
  md5_update-Tracks c text more t = record {
    state = ap (λ p. p.state) (joined c text more t);
    buffer = ap (λ p. p.bytes) (joined c text more t);
    fill = ap (λ p. p.fill) (joined c text more t);
    count = omega (arith, t.count, length-append text more);
  }

  -- The loop puts in the zeros that are missing.
  md5_zeros-Tracks :
      (z f : ℕ) (c : Md5) (text : Bytes)
      → Tracks c text
      → (length text + z) % 64 ≡ 56
      → z < 64
      → z ≤ f
      → Tracks (md5_zeros f c) (text ++ replicate z 0)
  unfolding md5_zeros
  md5_zeros-Tracks zero zero c text t e l g = rw (append-nil text) t
  md5_zeros-Tracks zero (suc f) c text t e l g =
      rw (to_equal c.n 56 (omega (arith, t.fill, after_fill text)), append-nil text) t
  md5_zeros-Tracks (suc z) zero c text t e l g = absurd (omega arith)
  md5_zeros-Tracks (suc z) (suc f) c text t e l g =
      rw
        (
          ne→== c.n 56 (not_yet c.n (length text) z (omega (arith, t.fill, after_fill text)) e l),
          sym (append_assoc text (0 ∷ []) (replicate z 0)),
        )
        (md5_zeros-Tracks z f (md5_update c (0 ∷ [])) (text ++ 0 ∷ [])
          (md5_update-Tracks c text (0 ∷ []) t) (omega (arith, length-append text (0 ∷ [])))
          (omega arith) (omega arith))

  regroup :
      (text : Bytes) (n : ℕ)
      → n ≡ length text * 8 % 2 ^ 64
      → ((text ++ 0x80 ∷ []) ++ replicate (zero_count (length text)) 0) ++ low_first n
        ≡ padded low_first text
  regroup text n e =
      ap (λ k. ((text ++ 0x80 ∷ []) ++ replicate (zero_count (length text)) 0) ++ low_first k) e
      ∙ append_assoc (text ++ 0x80 ∷ []) (replicate (zero_count (length text)) 0)
          (low_first (length text * 8 % 2 ^ 64))
      ∙ append_assoc text (0x80 ∷ [])
          (replicate (zero_count (length text)) 0 ++ low_first (length text * 8 % 2 ^ 64))
      ∙ unfold zero_count in refl

  final-Tracks :
      (c : Md5) (text : Bytes)
      → Tracks c text
      → md5_final c ≡ four_bytes (after (padded low_first text)).state
  final-Tracks c text t =
      let first = md5_update c (0x80 ∷ []) in
      let z = zero_count (length text) in
      let zeros = md5_zeros 64 first in
      let one = md5_update-Tracks c text (0x80 ∷ []) t in
      let two =
        md5_zeros-Tracks z 64 first (text ++ 0x80 ∷ []) one
          (omega (arith, zero_count_lem (length text), length-append text (0x80 ∷ [])))
          (zero_count_lem (length text)).1 (omega (arith, zero_count_lem (length text))) in
      let three =
        md5_update-Tracks zeros ((text ++ 0x80 ∷ []) ++ replicate z 0)
          (low_first (c.len * 8 % 2 ^ 64)) two in
      unfold md5_final in
      ap four_bytes (
        three.state
        ∙ ap (λ m. (after m).state) (regroup text (c.len * 8 % 2 ^ 64) (omega (arith, t.count))))

  whole :
      (text : Bytes)
      → length garbage ≡ 64
      → (after (padded low_first text)).state
        ≡ hash_blocks md5_block (block_count (length text)) md5_iv (padded low_first text)
  unfolding after start
  whole text h =
      (absorb-blocks md5_block (block_count (length text)) (padded low_first text) start md5_iv
        (record { size = h; short = omega arith; waiting = refl; held = refl; value = refl })
        (length-padded low_first text (λ n. refl))).value

-- The text is padded and its blocks of 64 bytes are transformed in order, whatever the 64 bytes of the
-- context's buffer were before.
pub md5-blocks : (garbage s : Bytes) → length garbage ≡ 64 → md5 garbage s ≡ md5_blocks s
md5-blocks garbage s h =
    unfold md5 in
    final-Tracks garbage (md5_update (md5_init garbage) s) s
      (md5_update-Tracks garbage (md5_init garbage) [] s (init-Tracks garbage))
    ∙ ap four_bytes (whole garbage s h)
