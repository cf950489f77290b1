-- ===== src/Digest/Whole.antt =====
-- Text that is a whole number of blocks is hashed block by block, and nothing of it waits.
use vader_langue.Prelude.{
  ℕ, suc, zero, ◌+◌, ◌-◌, ◌*◌, ◌%◌, ◌≡◌, ◌≢◌, ◌≤◌, ◌<◌, refl, ap, sym, ◌∙◌, arith, true, false, inl,
  inr, Bool-cases, [], ◌∷◌, ◌++◌, append_assoc, Bytes, ◌==◌, ==_iff, ne→==, length, ◌^◌, replicate,
  length-replicate, length-append, length-set, length-take, length-drop, set, take, drop, take-all,
  take-append-drop,
}
use vader_langue.Digest.{Pending, put_byte, absorb}
use vader_langue.Digest.Blocks.{hash_blocks, hash_blocks-suc, block_count, padded}
use vader_langue.Scram.Sha256.Buffer.{take-set}

-- The hash so far is `s`, and `p` waits in the buffer.
pub record Holds {S : Type 0} (b : Pending S) (s : S) (p : Bytes) : Type 0 where
  pub size : length b.bytes ≡ 64
  pub short : b.fill < 64
  pub waiting : length p ≡ b.fill
  pub held : take b.fill b.bytes ≡ p
  pub value : b.state ≡ s

not_equal : (a b : ℕ) → (a == b) ≡ false → a ≢ b
not_equal a b h = ground (arith, ==_iff a b)

to_equal : (a b : ℕ) → a ≡ b → (a == b) ≡ true
to_equal a b h = (==_iff a b).1 h

below_64 : (a b : ℕ) → a + b < 64 → a ≢ 64
below_64 a b h e = omega arith

plus_one : (n : ℕ) → n + 1 ≡ suc n
plus_one n = omega arith

module _ {S : Type 0} (transform : S → Bytes → S) where
  pub absorb-append :
      (b : Pending S) (s t : Bytes)
      → absorb transform b (s ++ t) ≡ absorb transform (absorb transform b s) t
  unfolding absorb
  absorb-append b [] t = refl
  absorb-append b (x ∷ s) t = absorb-append (put_byte transform b x) s t

  absorb_split :
      (k : ℕ) (b : Pending S) (m : Bytes)
      → absorb transform (absorb transform b (take k m)) (drop k m) ≡ absorb transform b m
  absorb_split k b m =
      sym (absorb-append b (take k m) (drop k m)) ∙ ap (absorb transform b) (take-append-drop k m)

  stored :
      (b : Pending S) (s : S) (p : Bytes) (x : ℕ)
      → Holds b s p
      → take (b.fill + 1) (set b.bytes b.fill x) ≡ p ++ x ∷ []
  stored b s p x h =
      ap (λ k. take k (set b.bytes b.fill x)) (plus_one b.fill)
      ∙ take-set b.bytes b.fill x (omega (arith, h.size, h.short))
      ∙ ap (λ l. l ++ x ∷ []) h.held

  put_byte_wait :
      (b : Pending S) (s : S) (p : Bytes) (x : ℕ)
      → Holds b s p
      → (b.fill + 1 == 64) ≡ false
      → Holds (put_byte transform b x) s (p ++ x ∷ [])
  unfolding put_byte
  put_byte_wait b s p x h e = rw e (record {
    size = length-set b.bytes b.fill x ∙ h.size;
    short = omega (arith, h.short, not_equal (b.fill + 1) 64 e);
    waiting = omega (arith, length-append p (x ∷ []), h.waiting);
    held = stored b s p x h;
    value = h.value;
  })

  put_byte_full :
      (b : Pending S) (s : S) (p : Bytes) (x : ℕ)
      → Holds b s p
      → (b.fill + 1 == 64) ≡ true
      → Holds (put_byte transform b x) (transform s (p ++ x ∷ [])) []
  unfolding put_byte
  put_byte_full b s p x h e =
      let size = length-set b.bytes b.fill x ∙ h.size in
      let whole : set b.bytes b.fill x ≡ p ++ x ∷ [] =
        sym (
          take-all (b.fill + 1) (set b.bytes b.fill x)
            (omega (arith, (==_iff (b.fill + 1) 64).0 e)))
        ∙ stored b s p x h in
      rw e (record {
        size = size;
        short = omega arith;
        waiting = refl;
        held = refl;
        value = ap (λ c. transform b.state c) whole ∙ ap (λ t. transform t (p ++ x ∷ [])) h.value;
      })

  absorb_fill :
      (m : Bytes) (b : Pending S) (s : S) (p : Bytes)
      → Holds b s p
      → length p + length m ≡ 64
      → 1 ≤ length m
      → Holds (absorb transform b m) (transform s (p ++ m)) []
  unfolding absorb
  absorb_fill [] b s p h e l = absurd (omega arith)
  absorb_fill (x ∷ []) b s p h e l =
      put_byte_full b s p x h (to_equal (b.fill + 1) 64 (omega (arith, h.waiting)))
  absorb_fill (x ∷ y ∷ m) b s p h e l = rw (sym (append_assoc p (x ∷ []) (y ∷ m))) (
      absorb_fill (y ∷ m) (put_byte transform b x) s (p ++ x ∷ [])
        (put_byte_wait b s p x h
          (ne→== (b.fill + 1) 64 (below_64 (b.fill + 1) (length m) (omega (arith, h.waiting)))))
        (omega (arith, length-append p (x ∷ []))) (omega arith))

  -- From an empty buffer, every block is transformed in turn.
  pub absorb-blocks :
      (n : ℕ) (m : Bytes) (b : Pending S) (s : S)
      → Holds b s []
      → length m ≡ n * 64
      → Holds (absorb transform b m) (hash_blocks transform n s m) []
  absorb-blocks zero [] b s h e = unfold absorb hash_blocks in h
  absorb-blocks zero (x ∷ m) b s h e = absurd (omega arith)
  absorb-blocks (suc n) m b s h e =
      let first = take 64 m in
      let size : length first ≡ 64 = omega (arith, length-take 64 m) in
      let done = absorb_fill first b s [] h (omega (arith, size)) (omega (arith, size)) in
      rw (sym (absorb_split 64 b m), hash_blocks-suc transform n s m)
        (absorb-blocks n (drop 64 m) (absorb transform b first) (transform s first) done
          (omega (arith, length-drop 64 m)))

  put_byte_fill :
      (b : Pending S) (x : ℕ) → b.fill < 64 → (put_byte transform b x).fill ≡ (b.fill + 1) % 64
  unfolding put_byte
  put_byte_fill b x h = elim (Bool-cases (b.fill + 1 == 64)) [
    | inl e ↦ rw e (omega (arith, (==_iff (b.fill + 1) 64).0 e))
    | inr e ↦ rw e (omega (arith, not_equal (b.fill + 1) 64 e))
  ]

  -- How many bytes wait behind a text.
  pub absorb_fill_mod :
      (m : Bytes) (b : Pending S)
      → b.fill < 64
      → (absorb transform b m).fill ≡ (b.fill + length m) % 64
  unfolding absorb
  absorb_fill_mod [] b h = omega arith
  absorb_fill_mod (x ∷ m) b h = omega (
    arith,
    put_byte_fill b x h,
    absorb_fill_mod m (put_byte transform b x) (omega (arith, put_byte_fill b x h)),
  )

pub Pending-eq :
    {S : Type 0} (p q : Pending S) → p.bytes ≡ q.bytes → p.fill ≡ q.fill → p.state ≡ q.state → p ≡ q
Pending-eq p q h k l = cc

-- The number of zeros that a text and its byte 0x80 need before its length.
unfoldable pub zero_count : ℕ → ℕ
zero_count len = 64 * block_count len - len - 9

pub zero_count_lem : (len : ℕ) → ((len + 1 + zero_count len) % 64 ≡ 56) × (zero_count len < 64)
unfolding zero_count
zero_count_lem len = (omega arith, omega arith)

pub length-padded :
    (encode : ℕ → Bytes) (s : Bytes)
    → ((n : ℕ) → length (encode n) ≡ 8)
    → length (padded encode s) ≡ block_count (length s) * 64
length-padded encode s h = omega (
  arith,
  length-append s (
      0x80
      ∷ (replicate (64 * block_count (length s) - length s - 9) 0
          ++ encode (length s * 8 % 2 ^ 64))),
  length-append (replicate {A = ℕ} (64 * block_count (length s) - length s - 9) 0)
      (encode (length s * 8 % 2 ^ 64)),
  length-replicate {A = ℕ} (64 * block_count (length s) - length s - 9) 0,
  h (length s * 8 % 2 ^ 64),
)
