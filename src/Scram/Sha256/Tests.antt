-- ===== src/Scram/Sha256/Tests.antt =====
-- runtime/vader_scram.c: SHA-256 of known texts.
use vader_langue.Prelude.{◌≡◌, refl, [], ◌∷◌, codes, replicate, take}
use vader_langue.Scram.Sha256.{sha256, sha256_k, update_byte, transform}
use vader_langue.Digest.Fips.{sha256_of}
use vader_langue.Scram.Sha256.Standard.{sha256-standard}

sha256_abc : take 4 (sha256 (replicate 64 7) (codes "abc")) ≡ 0xba ∷ 0x78 ∷ 0x16 ∷ 0xbf ∷ []
unfolding sha256 sha256_k update_byte transform
sha256_abc = refl

sha256-standard_example : sha256 (replicate 64 7) (codes "abc") ≡ sha256_of (codes "abc")
sha256-standard_example = sha256-standard (replicate 64 7) (codes "abc") refl
