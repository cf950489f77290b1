-- ===== src/Scram/Hmac/Tests.antt =====
-- runtime/vader_scram.c: HMAC-SHA-256 and PBKDF2 of known texts.
use vader_langue.Prelude.{◌≡◌, refl, [], ◌∷◌, codes, take, replicate}
use vader_langue.Scram.Sha256.{sha256_k, transform, update_byte}
use vader_langue.Scram.Hmac.{hmac, pbkdf2, xor_bytes}

-- Case 2 of RFC 4231.
hmac_jefe :
    take 4 (hmac (replicate 64 9) (codes "Jefe") (codes "what do ya want for nothing?"))
    ≡ 0x5b ∷ 0xdc ∷ 0xc1 ∷ 0x46 ∷ []
unfolding hmac sha256_k transform update_byte
hmac_jefe = refl

pbkdf2_two :
    take 4 (pbkdf2 (replicate 64 9) (codes "password") (codes "salt") 2)
    ≡ 0xae ∷ 0x4d ∷ 0x0c ∷ 0x95 ∷ []
unfolding pbkdf2 hmac sha256_k transform update_byte xor_bytes
pbkdf2_two = refl
