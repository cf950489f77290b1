-- ===== src/Scram/Sha256/Stream.antt =====
-- runtime/vader_scram.c: sha256_update and sha256_final hash a text byte by byte as the standard
-- describes it for the whole text.
use vader_langue.Prelude.{
  ℕ, suc, ◌+◌, ◌*◌, ◌%◌, ◌^◌, ◌≡◌, ◌<◌, refl, ap, ◌∙◌, sym, arith, [], ◌∷◌, ◌++◌, append_assoc,
  append-nil, Bytes, length, Bool-cases, ==_iff, ◌≢◌, set, take-all, false, inl, inr, ◌==◌,
  length-append, length-set, take,
}
use vader_langue.Scram.Sha256.{Ctx, transform, iv, init, update_byte, update}
use vader_langue.Scram.Sha256.Buffer.{take-set}
use vader_langue.Scram.Sha256.Padding.{hash_blocks, hash_blocks-append, hash_blocks_one}

-- The context after a text: its full blocks are hashed, and the buffer begins with the rest.
pub record After (x : Ctx) (s : Bytes) : Type 0 where
  pub blocks : ℕ
  pub hashed : Bytes
  pub rest : Bytes
  pub text : s ≡ hashed ++ rest
  pub full : length hashed ≡ blocks * 64
  pub size : length x.buf ≡ 64
  pub short : x.datalen < 64
  pub rest_length : length rest ≡ x.datalen
  pub held : take x.datalen x.buf ≡ rest
  pub bits : x.bitlen ≡ blocks * 512 % 2 ^ 64
  pub value : x.state ≡ hash_blocks blocks iv hashed

pub plus_one : (n : ℕ) → n + 1 ≡ suc n
plus_one n = omega arith

not_equal : (a b : ℕ) → (a == b) ≡ false → a ≢ b
not_equal a b h = ground (arith, ==_iff a b)

pub init-After : (garbage : Bytes) → length garbage ≡ 64 → After (init garbage) []
unfolding init hash_blocks
init-After g h = record {
  blocks = 0;
  hashed = [];
  rest = [];
  text = refl;
  full = refl;
  size = h;
  short = omega arith;
  rest_length = refl;
  held = refl;
  bits = refl;
  value = refl;
}

-- The buffer with one more byte.
pub stored :
    (x : Ctx) (s : Bytes) (b : ℕ) (a : After x s)
    → take (x.datalen + 1) (set x.buf x.datalen b) ≡ a.rest ++ b ∷ []
stored x s b a =
    ap (λ k. take k (set x.buf x.datalen b)) (plus_one x.datalen)
    ∙ take-set x.buf x.datalen b (omega (arith, a.size, a.short))
    ∙ ap (λ l. l ++ b ∷ []) a.held

full_block :
    (x : Ctx) (s : Bytes) (b : ℕ)
    → After x s
    → x.datalen + 1 ≡ 64
    → After
        (record {
          buf = set x.buf x.datalen b;
          datalen = 0;
          bitlen = (x.bitlen + 512) % 2 ^ 64;
          state = transform x.state (set x.buf x.datalen b);
        })
        (s ++ b ∷ [])
full_block x s b a e =
    let block = a.rest ++ b ∷ [] in
    let size = length-set x.buf x.datalen b ∙ a.size in
    let whole : set x.buf x.datalen b ≡ block =
      sym (take-all (x.datalen + 1) (set x.buf x.datalen b) (omega arith)) ∙ stored x s b a in
    let block_length : length block ≡ 64 = ap length (sym whole) ∙ size in
    record {
      blocks = a.blocks + 1;
      hashed = a.hashed ++ block;
      rest = [];
      text =
          ap (λ l. l ++ b ∷ []) a.text
          ∙ append_assoc a.hashed a.rest (b ∷ [])
          ∙ sym (append-nil (a.hashed ++ block));
      full = omega (arith, length-append a.hashed block, a.full);
      size = size;
      short = omega arith;
      rest_length = refl;
      held = refl;
      bits = omega (arith, a.bits);
      value =
          ap (λ c. transform x.state c) whole
          ∙ ap (λ st. transform st block) a.value
          ∙ sym (hash_blocks_one (hash_blocks a.blocks iv a.hashed) block block_length)
          ∙ sym (hash_blocks-append a.blocks 1 iv a.hashed block a.full);
    }

part_block :
    (x : Ctx) (s : Bytes) (b : ℕ)
    → After x s
    → x.datalen + 1 ≢ 64
    → After
        (record {
          buf = set x.buf x.datalen b;
          datalen = x.datalen + 1;
          bitlen = x.bitlen;
          state = x.state;
        })
        (s ++ b ∷ [])
part_block x s b a n = record {
  blocks = a.blocks;
  hashed = a.hashed;
  rest = a.rest ++ b ∷ [];
  text = ap (λ l. l ++ b ∷ []) a.text ∙ append_assoc a.hashed a.rest (b ∷ []);
  full = a.full;
  size = length-set x.buf x.datalen b ∙ a.size;
  short = omega (arith, a.short, n);
  rest_length = omega (arith, length-append a.rest (b ∷ []), a.rest_length);
  held = stored x s b a;
  bits = a.bits;
  value = a.value;
}

update_byte-After :
    (x : Ctx) (s : Bytes) (b : ℕ) → After x s → After (update_byte x b) (s ++ b ∷ [])
update_byte-After x s b a = elim (Bool-cases (x.datalen + 1 == 64)) [
  | inl e ↦ unfold update_byte in rw e (full_block x s b a ((==_iff (x.datalen + 1) 64).0 e))
  | inr e ↦ unfold update_byte in rw e (part_block x s b a (not_equal (x.datalen + 1) 64 e))
]

pub update-After : (x : Ctx) (s t : Bytes) → After x s → After (update x t) (s ++ t)
unfolding update
update-After x s [] a = rw (append-nil s) a
update-After x s (b ∷ t) a =
    rw (sym (append_assoc s (b ∷ []) t))
      (update-After (update_byte x b) (s ++ b ∷ []) t (update_byte-After x s b a))
