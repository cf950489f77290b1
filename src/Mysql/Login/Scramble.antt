-- ===== src/Mysql/Login/Scramble.antt =====
-- runtime/vader_mysql.c: the proofs of the password. `garbage` is what the hash buffers hold at first.
pub mod Server
use vader_langue.Prelude.{ℕ, ◌++◌, Bytes, take}
use vader_langue.Scram.Sha256.{sha256}
use vader_langue.Scram.Hmac.{xor_bytes}
use vader_langue.Mysql.Sha1.{sha1}

-- `native_scramble`
unfoldable pub native_scramble : Bytes → Bytes → Bytes → Bytes
native_scramble garbage pass salt =
    let h1 = sha1 garbage pass in
    let h2 = sha1 garbage h1 in let h3 = sha1 garbage (take 20 salt ++ h2) in xor_bytes h1 h3

-- `caching_sha2_scramble`
unfoldable pub caching_sha2_scramble : Bytes → Bytes → Bytes → Bytes
caching_sha2_scramble garbage pass salt =
    let h1 = sha256 garbage pass in
    let h2 = sha256 garbage h1 in let h3 = sha256 garbage (h2 ++ take 20 salt) in xor_bytes h1 h3
