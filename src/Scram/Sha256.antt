-- ===== src/Scram/Sha256.antt =====
-- runtime/vader_scram.c: SHA-256. An `unsigned int` is a number below 2^32, an `unsigned char` one below
-- 2^8; `m` and `state` are lists of 64 and 8 words.
pub mod Buffer
pub mod Padding
pub mod Stream
pub mod Final
pub mod Standard
mod Tests
use Prim.Native.Nat.{bit_or, bit_and, bit_xor}
use vader_langue.Prelude.{
  ℕ, suc, zero, ◌+◌, ◌-◌, ◌*◌, ◌/◌, ◌%◌, ◌^◌, Bool, true, false, List, [], ◌∷◌, ◌++◌, Bytes, ◌==◌,
  ltb, if◌then◌else◌, length, get_or, set, replicate, take, drop,
}

-- `a + b`, `~ a`, `a >> b` and `a << b` on `unsigned int`.
abbrev pub add32 : ℕ → ℕ → ℕ
add32 a b = (a + b) % 2 ^ 32

abbrev pub not32 : ℕ → ℕ
not32 a = 2 ^ 32 - 1 - a

abbrev pub shr : ℕ → ℕ → ℕ
shr a b = a / 2 ^ b

abbrev pub shl32 : ℕ → ℕ → ℕ
shl32 a b = a * 2 ^ b % 2 ^ 32

abbrev pub rotr : ℕ → ℕ → ℕ
rotr a b = bit_or (shr a b) (shl32 a (32 - b))

abbrev pub ch : ℕ → ℕ → ℕ → ℕ
ch x y z = bit_xor (bit_and x y) (bit_and (not32 x) z)

abbrev pub maj : ℕ → ℕ → ℕ → ℕ
maj x y z = bit_xor (bit_xor (bit_and x y) (bit_and x z)) (bit_and y z)

abbrev pub ep0 : ℕ → ℕ
ep0 x = bit_xor (bit_xor (rotr x 2) (rotr x 13)) (rotr x 22)

abbrev pub ep1 : ℕ → ℕ
ep1 x = bit_xor (bit_xor (rotr x 6) (rotr x 11)) (rotr x 25)

abbrev pub sig0 : ℕ → ℕ
sig0 x = bit_xor (bit_xor (rotr x 7) (rotr x 18)) (shr x 3)

abbrev pub sig1 : ℕ → ℕ
sig1 x = bit_xor (bit_xor (rotr x 17) (rotr x 19)) (shr x 10)

unfoldable pub sha256_k : List ℕ
sha256_k =
    0x428a2f98 ∷ 0x71374491 ∷ 0xb5c0fbcf ∷ 0xe9b5dba5 ∷ 0x3956c25b ∷ 0x59f111f1 ∷ 0x923f82a4
    ∷ 0xab1c5ed5 ∷ 0xd807aa98 ∷ 0x12835b01 ∷ 0x243185be ∷ 0x550c7dc3 ∷ 0x72be5d74 ∷ 0x80deb1fe
    ∷ 0x9bdc06a7 ∷ 0xc19bf174 ∷ 0xe49b69c1 ∷ 0xefbe4786 ∷ 0x0fc19dc6 ∷ 0x240ca1cc ∷ 0x2de92c6f
    ∷ 0x4a7484aa ∷ 0x5cb0a9dc ∷ 0x76f988da ∷ 0x983e5152 ∷ 0xa831c66d ∷ 0xb00327c8 ∷ 0xbf597fc7
    ∷ 0xc6e00bf3 ∷ 0xd5a79147 ∷ 0x06ca6351 ∷ 0x14292967 ∷ 0x27b70a85 ∷ 0x2e1b2138 ∷ 0x4d2c6dfc
    ∷ 0x53380d13 ∷ 0x650a7354 ∷ 0x766a0abb ∷ 0x81c2c92e ∷ 0x92722c85 ∷ 0xa2bfe8a1 ∷ 0xa81a664b
    ∷ 0xc24b8b70 ∷ 0xc76c51a3 ∷ 0xd192e819 ∷ 0xd6990624 ∷ 0xf40e3585 ∷ 0x106aa070 ∷ 0x19a4c116
    ∷ 0x1e376c08 ∷ 0x2748774c ∷ 0x34b0bcb5 ∷ 0x391c0cb3 ∷ 0x4ed8aa4a ∷ 0x5b9cca4f ∷ 0x682e6ff3
    ∷ 0x748f82ee ∷ 0x78a5636f ∷ 0x84c87814 ∷ 0x8cc70208 ∷ 0x90befffa ∷ 0xa4506ceb ∷ 0xbef9a3f7
    ∷ 0xc67178f2 ∷ []

pub record Ctx : Type 0 where
  pub buf : Bytes
  pub datalen : ℕ
  pub bitlen : ℕ
  pub state : List ℕ

-- The first loop of `sha256_transform`: the `n` words of `data` from byte `j` on.
unfoldable pub words : ℕ → ℕ → Bytes → List ℕ
words zero j buf = []
words (suc n) j buf =
    bit_or
      (bit_or (bit_or (shl32 (get_or buf j 0) 24) (shl32 (get_or buf (j + 1) 0) 16))
        (shl32 (get_or buf (j + 2) 0) 8))
      (get_or buf (j + 3) 0)
    ∷ words n (j + 4) buf

-- The second loop, for `n` more words behind the `i` that `m` holds.
unfoldable pub schedule : ℕ → List ℕ → List ℕ
schedule zero m = m
schedule (suc n) m =
    let i = length m in
    schedule n (
      m
      ++ add32
          (add32 (add32 (sig1 (get_or m (i - 2) 0)) (get_or m (i - 7) 0))
            (sig0 (get_or m (i - 15) 0)))
          (get_or m (i - 16) 0)
        ∷ [])

-- The variables `a` to `h`.
pub record Vars : Type 0 where
  pub a : ℕ
  pub b : ℕ
  pub c : ℕ
  pub d : ℕ
  pub e : ℕ
  pub f : ℕ
  pub g : ℕ
  pub h : ℕ

abbrev pub round : ℕ → ℕ → Vars → Vars
round k w v =
    let t1 = add32 (add32 (add32 (add32 v.h (ep1 v.e)) (ch v.e v.f v.g)) k) w in
    let t2 = add32 (ep0 v.a) (maj v.a v.b v.c) in
    record {
      a = add32 t1 t2;
      b = v.a;
      c = v.b;
      d = v.c;
      e = add32 v.d t1;
      f = v.e;
      g = v.f;
      h = v.g;
    }

-- The third loop, over `sha256_k[i]` and `m[i]`.
unfoldable pub rounds : List ℕ → List ℕ → Vars → Vars
rounds (k ∷ ks) (w ∷ ws) v = rounds ks ws (round k w v)
rounds ks ws v = v

unfoldable pub load : List ℕ → Vars
load s = record {
  a = get_or s 0 0;
  b = get_or s 1 0;
  c = get_or s 2 0;
  d = get_or s 3 0;
  e = get_or s 4 0;
  f = get_or s 5 0;
  g = get_or s 6 0;
  h = get_or s 7 0;
}

unfoldable pub add_to : List ℕ → Vars → List ℕ
add_to s v =
    add32 (get_or s 0 0) v.a
    ∷ add32 (get_or s 1 0) v.b
    ∷ add32 (get_or s 2 0) v.c
    ∷ add32 (get_or s 3 0) v.d
    ∷ add32 (get_or s 4 0) v.e
    ∷ add32 (get_or s 5 0) v.f
    ∷ add32 (get_or s 6 0) v.g
    ∷ add32 (get_or s 7 0) v.h
    ∷ []

-- `sha256_transform`, on the state alone, which is all that it changes.
unfoldable pub transform : List ℕ → Bytes → List ℕ
unfolding words schedule rounds load add_to
transform s buf = add_to s (rounds sha256_k (schedule 48 (words 16 0 buf)) (load s))

unfoldable pub iv : List ℕ
iv =
    0x6a09e667 ∷ 0xbb67ae85 ∷ 0x3c6ef372 ∷ 0xa54ff53a ∷ 0x510e527f ∷ 0x9b05688c ∷ 0x1f83d9ab
    ∷ 0x5be0cd19 ∷ []

-- `sha256_init`; it leaves `data` as it is.
unfoldable pub init : Bytes → Ctx
unfolding iv
init buf = record { buf = buf; datalen = 0; bitlen = 0; state = iv }

-- One round of `sha256_update`.
unfoldable pub update_byte : Ctx → ℕ → Ctx
update_byte x byte =
    let buf = set x.buf x.datalen byte in
    if x.datalen + 1 == 64
    then record {
      buf = buf;
      datalen = 0;
      bitlen = (x.bitlen + 512) % 2 ^ 64;
      state = transform x.state buf;
    }
    else record { buf = buf; datalen = x.datalen + 1; bitlen = x.bitlen; state = x.state }

unfoldable pub update : Ctx → Bytes → Ctx
update x [] = x
update x (byte ∷ s) = update (update_byte x byte) s

-- `while (i < n) ctx->data[i++] = 0x00`
unfoldable pub zero_to : ℕ → ℕ → Bytes → Bytes
zero_to zero i buf = buf
zero_to (suc n) i buf = zero_to n (i + 1) (set buf i 0)

-- The stores of the length, from `data[56]` on.
unfoldable pub put_length : Bytes → ℕ → Bytes
put_length buf n =
    set
      (set
        (set
          (set
            (set (set (set (set buf 63 (n % 256)) 62 (shr n 8 % 256)) 61 (shr n 16 % 256)) 60
              (shr n 24 % 256))
            59 (shr n 32 % 256))
          58 (shr n 40 % 256))
        57 (shr n 48 % 256))
      56 (shr n 56 % 256)

-- The end of `sha256_final`: `hash[i + j * 4]` is byte `i` of word `j`.
unfoldable pub digest : List ℕ → Bytes
digest [] = []
digest (w ∷ s) = shr w 24 % 256 ∷ shr w 16 % 256 ∷ shr w 8 % 256 ∷ w % 256 ∷ digest s

unfoldable pub final : Ctx → Bytes
unfolding zero_to put_length digest
final x =
    let i = x.datalen in
    let buf = set x.buf i 0x80 in
    let bitlen = (x.bitlen + i * 8) % 2 ^ 64 in
    let long = zero_to (64 - (i + 1)) (i + 1) buf in
    if ltb i 56
    then digest (transform x.state (put_length (zero_to (56 - (i + 1)) (i + 1) buf) bitlen))
    else digest
        (transform (transform x.state long) (put_length (replicate 56 0 ++ drop 56 long) bitlen))

-- `vader_scram_sha256`. The buffer is not initialised; what it holds has no effect.
unfoldable pub sha256 : Bytes → Bytes → Bytes
unfolding init update final
sha256 garbage s = final (update (init garbage) s)
