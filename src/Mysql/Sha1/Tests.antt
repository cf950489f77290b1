-- ===== src/Mysql/Sha1/Tests.antt =====
-- runtime/vader_mysql.c: SHA-1 of a known text.
use vader_langue.Prelude.{◌≡◌, refl, [], ◌∷◌, codes, replicate, take}
use vader_langue.Digest.{put_byte}
use vader_langue.Digest.Fips.{sha1_of}
use vader_langue.Mysql.Sha1.Standard.{sha1-standard}
use vader_langue.Mysql.Sha1.{sha1, sha1_transform, sha1_update, sha1_final, sha1_zeros, five_bytes}

sha1_abc : take 4 (sha1 (replicate 64 7) (codes "abc")) ≡ 0xa9 ∷ 0x99 ∷ 0x3e ∷ 0x36 ∷ []
unfolding sha1 sha1_transform put_byte sha1_update sha1_final sha1_zeros five_bytes
sha1_abc = refl

sha1-standard_example : sha1 (replicate 64 7) (codes "abc") ≡ sha1_of (codes "abc")
sha1-standard_example = sha1-standard (replicate 64 7) (codes "abc") refl
