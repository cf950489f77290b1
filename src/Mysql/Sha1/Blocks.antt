-- ===== src/Mysql/Sha1/Blocks.antt =====
-- runtime/vader_mysql.c: SHA-1 of a text, whose padding is put in byte by byte, transforms the blocks
-- of the padded text.
use vader_langue.Prelude.{
  ℕ, suc, zero, ◌+◌, ◌*◌, ◌%◌, ◌^◌, ◌≡◌, ◌≢◌, ◌≤◌, ◌<◌, refl, ap, sym, ◌∙◌, arith, true, [], ◌∷◌,
  ◌++◌, append_assoc, append-nil, Bytes, ◌==◌, ==_iff, ne→==, length, length-append, replicate,
}
use vader_langue.Scram.Sha256.Buffer.{length_bytes}
use vader_langue.Digest.{Pending, absorb}
use vader_langue.Digest.Blocks.{hash_blocks, block_count, padded}
use vader_langue.Digest.Whole.{
  absorb-append, absorb-blocks, absorb_fill_mod, Pending-eq, zero_count, zero_count_lem,
  length-padded,
}
use vader_langue.Mysql.Sha1.{
  Five, Sha1, sha1_transform, sha1_iv, sha1_init, sha1_update, sha1_zeros, sha1_final, sha1, place,
  five_bytes,
}

abbrev pub sha1_blocks : Bytes → Bytes
sha1_blocks s =
    five_bytes (hash_blocks sha1_transform (block_count (length s)) sha1_iv (padded length_bytes s))

to_equal : (a b : ℕ) → a ≡ b → (a == b) ≡ true
to_equal a b h = (==_iff a b).1 h

not_yet : (p len z : ℕ) → p ≡ len % 64 → (len + suc z) % 64 ≡ 56 → suc z < 64 → p ≢ 56
not_yet p len z h e l q = omega arith

module _ (garbage : Bytes) where
  start : Pending Five
  start = record { bytes = garbage; fill = 0; state = sha1_iv }

  after : Bytes → Pending Five
  after text = absorb sha1_transform start text

  -- The context is what the buffer is behind the text.
  record Tracks (c : Sha1) (text : Bytes) : Type 0 where
    state : c.state ≡ (after text).state
    buffer : c.buffer ≡ (after text).bytes
    count : c.count ≡ length text * 8 % 2 ^ 64

  after_fill : (text : Bytes) → (after text).fill ≡ length text % 64
  unfolding after start
  after_fill text = absorb_fill_mod sha1_transform text start (omega arith) ∙ omega arith

  pending :
      (c : Sha1) (text : Bytes)
      → Tracks c text
      → record { bytes = c.buffer; fill = place c.count; state = c.state } ≡ after text
  pending c text t =
      Pending-eq _ (after text) t.buffer (omega (arith, t.count, after_fill text)) t.state

  init-Tracks : Tracks (sha1_init garbage) []
  unfolding after start absorb
  init-Tracks = record { state = refl; buffer = refl; count = refl }

  joined :
      (c : Sha1) (text more : Bytes)
      → Tracks c text
      → absorb sha1_transform
          (record { bytes = c.buffer; fill = place c.count; state = c.state })
          more
        ≡ after (text ++ more)
  joined c text more t =
      ap (λ p. absorb sha1_transform p more) (pending c text t)
      ∙ unfold after in sym (absorb-append sha1_transform start text more)

  sha1_update-Tracks :
      (c : Sha1) (text more : Bytes) → Tracks c text → Tracks (sha1_update c more) (text ++ more)
  unfolding sha1_update
  sha1_update-Tracks c text more t = record {
    state = ap (λ p. p.state) (joined c text more t);
    buffer = ap (λ p. p.bytes) (joined c text more t);
    count = omega (arith, t.count, length-append text more);
  }

  -- The loop puts in the zeros that are missing.
  sha1_zeros-Tracks :
      (z f : ℕ) (c : Sha1) (text : Bytes)
      → Tracks c text
      → (length text + z) % 64 ≡ 56
      → z < 64
      → z ≤ f
      → Tracks (sha1_zeros f c) (text ++ replicate z 0)
  unfolding sha1_zeros
  sha1_zeros-Tracks zero zero c text t e l g = rw (append-nil text) t
  sha1_zeros-Tracks zero (suc f) c text t e l g =
      rw (to_equal (place c.count) 56 (omega (arith, t.count)), append-nil text) t
  sha1_zeros-Tracks (suc z) zero c text t e l g = absurd (omega arith)
  sha1_zeros-Tracks (suc z) (suc f) c text t e l g =
      rw
        (
          ne→== (place c.count) 56
              (not_yet (place c.count) (length text) z (omega (arith, t.count)) e l),
          sym (append_assoc text (0 ∷ []) (replicate z 0)),
        )
        (sha1_zeros-Tracks z f (sha1_update c (0 ∷ [])) (text ++ 0 ∷ [])
          (sha1_update-Tracks c text (0 ∷ []) t) (omega (arith, length-append text (0 ∷ [])))
          (omega arith) (omega arith))

  regroup :
      (text : Bytes) (n : ℕ)
      → n ≡ length text * 8 % 2 ^ 64
      → ((text ++ 0x80 ∷ []) ++ replicate (zero_count (length text)) 0) ++ length_bytes n
        ≡ padded length_bytes text
  regroup text n e =
      ap (λ k. ((text ++ 0x80 ∷ []) ++ replicate (zero_count (length text)) 0) ++ length_bytes k) e
      ∙ append_assoc (text ++ 0x80 ∷ []) (replicate (zero_count (length text)) 0)
          (length_bytes (length text * 8 % 2 ^ 64))
      ∙ append_assoc text (0x80 ∷ [])
          (replicate (zero_count (length text)) 0 ++ length_bytes (length text * 8 % 2 ^ 64))
      ∙ unfold zero_count in refl

  final-Tracks :
      (c : Sha1) (text : Bytes)
      → Tracks c text
      → sha1_final c ≡ five_bytes (after (padded length_bytes text)).state
  final-Tracks c text t =
      let first = sha1_update c (0x80 ∷ []) in
      let z = zero_count (length text) in
      let zeros = sha1_zeros 64 first in
      let one = sha1_update-Tracks c text (0x80 ∷ []) t in
      let two =
        sha1_zeros-Tracks z 64 first (text ++ 0x80 ∷ []) one
          (omega (arith, zero_count_lem (length text), length-append text (0x80 ∷ [])))
          (zero_count_lem (length text)).1 (omega (arith, zero_count_lem (length text))) in
      let three =
        sha1_update-Tracks zeros ((text ++ 0x80 ∷ []) ++ replicate z 0) (length_bytes c.count)
          two in
      unfold sha1_final in
      ap five_bytes (three.state ∙ ap (λ m. (after m).state) (regroup text c.count t.count))

  whole :
      (text : Bytes)
      → length garbage ≡ 64
      → (after (padded length_bytes text)).state
        ≡ hash_blocks sha1_transform (block_count (length text)) sha1_iv (padded length_bytes text)
  unfolding after start
  whole text h =
      (absorb-blocks sha1_transform (block_count (length text)) (padded length_bytes text) start
        sha1_iv
        (record { size = h; short = omega arith; waiting = refl; held = refl; value = refl })
        (length-padded length_bytes text (λ n. refl))).value

-- The text is padded and its blocks of 64 bytes are transformed in order, whatever the 64 bytes of the
-- context's buffer were before.
pub sha1-blocks : (garbage s : Bytes) → length garbage ≡ 64 → sha1 garbage s ≡ sha1_blocks s
sha1-blocks garbage s h =
    unfold sha1 in
    final-Tracks garbage (sha1_update (sha1_init garbage) s) s
      (sha1_update-Tracks garbage (sha1_init garbage) [] s (init-Tracks garbage))
    ∙ ap five_bytes (whole garbage s h)
