-- ===== src/Pg/Md5/Tests.antt =====
-- runtime/vader_pg.c: MD5 of a known text.
use vader_langue.Prelude.{◌≡◌, refl, codes, replicate, take}
use vader_langue.Digest.{put_byte}
use vader_langue.Pg.Md5.{md5, md5_block, md5_update, md5_final, md5_zeros, four_bytes, md5_hex}

md5_abc : take 8 (md5_hex (md5 (replicate 64 7) (codes "abc"))) ≡ codes "90015098"
unfolding md5 md5_block put_byte md5_update md5_final md5_zeros four_bytes md5_hex
md5_abc = refl
