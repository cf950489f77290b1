-- ===== src/Scram/Hmac.antt =====
-- runtime/vader_scram.c: HMAC-SHA-256, PBKDF2 and nonces.
mod Tests
use Prim.Native.Nat.{bit_xor}
use vader_langue.Prelude.{
  ℕ, suc, zero, ◌+◌, ◌-◌, ◌*◌, ◌%◌, List, [], ◌∷◌, ◌++◌, Bytes, ltb, if◌then◌else◌, length, get_or,
  replicate, take, drop,
}
use vader_langue.Scram.Sha256.{sha256, init, update, final}
use vader_langue.Scram.Base64.{b64}

unfoldable pub xor_all : ℕ → Bytes → Bytes
xor_all x [] = []
xor_all x (c ∷ s) = bit_xor c x ∷ xor_all x s

-- `k`: the key, or its hash, over 64 bytes of 0.
unfoldable pub key_block : Bytes → Bytes → Bytes
key_block garbage key =
    let short = if ltb 64 (length key) then sha256 garbage key else key in
    take 64 (short ++ replicate 64 0)

-- `vader_scram_hmac`; the context's buffer is not initialised.
unfoldable pub hmac : Bytes → Bytes → Bytes → Bytes
unfolding xor_all key_block init update final
hmac garbage key msg =
    let k = key_block garbage key in
    let inner = final (update (update (init garbage) (xor_all 0x36 k)) msg) in
    final (update (update (init garbage) (xor_all 0x5c k)) inner)

unfoldable pub xor_bytes : Bytes → Bytes → Bytes
xor_bytes (a ∷ s) (b ∷ t) = bit_xor a b ∷ xor_bytes s t
xor_bytes s t = s

-- The loop of `vader_scram_pbkdf2`, for `n` more rounds.
unfoldable pub stretch : ℕ → Bytes → Bytes → Bytes → Bytes → Bytes
stretch zero garbage pass u t = t
stretch (suc n) garbage pass u t =
    let u1 = hmac garbage pass u in stretch n garbage pass u1 (xor_bytes t u1)

-- `vader_scram_pbkdf2`: a salt is cut to 120 bytes, and an `iter` below 1 counts as 1.
unfoldable pub pbkdf2 : Bytes → Bytes → Bytes → ℕ → Bytes
unfolding stretch
pbkdf2 garbage pass salt iter =
    let u = hmac garbage pass (take 120 salt ++ 0 ∷ 0 ∷ 0 ∷ 1 ∷ []) in
    stretch (iter - 1) garbage pass u u

-- The bytes of a nonce from number `i` on, `n` of them; `raw` is what /dev/urandom gave.
unfoldable pub nonce_from : ℕ → ℕ → Bytes → Bytes
nonce_from zero i raw = []
nonce_from (suc n) i [] = get_or b64 ((i * 7 + 13) % 256 % 62) 0 ∷ nonce_from n (i + 1) []
nonce_from (suc n) i (x ∷ raw) = get_or b64 (x % 62) 0 ∷ nonce_from n (i + 1) raw

-- `vader_scram_nonce`, for an `n` of at most 64, which `raw` can hold.
unfoldable pub nonce : Bytes → ℕ → Bytes
unfolding nonce_from
nonce raw n = nonce_from n 0 raw
