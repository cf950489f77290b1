-- ===== src/Pg/Crypto.antt =====
-- runtime/vader_pg.c: its own SHA-256, HMAC, PBKDF2 and base64. They are the same text as those of
-- runtime/vader_scram.c under other names, and so are their models.
use vader_langue.Prelude.{ℕ, List, Bytes, Option, none, some, []}
use vader_langue.Scram.Sha256.{Ctx, sha256_k, transform, init, update, final, sha256}
use vader_langue.Scram.Hmac.{hmac, pbkdf2, nonce_from}
use vader_langue.Scram.Base64.{b64encode, b64_val, b64decode}

abbrev pub pg_sha256_k : List ℕ
pg_sha256_k = sha256_k

abbrev pub pg_sha256_transform : List ℕ → Bytes → List ℕ
pg_sha256_transform = transform

abbrev pub pg_sha256_init : Bytes → Ctx
pg_sha256_init = init

abbrev pub pg_sha256_update : Ctx → Bytes → Ctx
pg_sha256_update = update

abbrev pub pg_sha256_final : Ctx → Bytes
pg_sha256_final = final

abbrev pub pg_sha256 : Bytes → Bytes → Bytes
pg_sha256 = sha256

abbrev pub pg_hmac_sha256 : Bytes → Bytes → Bytes → Bytes
pg_hmac_sha256 = hmac

abbrev pub pg_pbkdf2_sha256 : Bytes → Bytes → Bytes → ℕ → Bytes
pg_pbkdf2_sha256 = pbkdf2

abbrev pub pg_b64_encode : Bytes → Bytes
pg_b64_encode = b64encode

abbrev pub pg_b64_val : ℕ → Option ℕ
pg_b64_val = b64_val

abbrev pub pg_b64_decode : Bytes → Bytes
pg_b64_decode = b64decode

-- `gen_nonce`: `raw` is what the array holds after the read, at least `n` bytes, and `none` where
-- /dev/urandom cannot be opened.
unfoldable pub gen_nonce : Option Bytes → ℕ → Bytes
gen_nonce none n = nonce_from n 0 []
gen_nonce (some raw) n = nonce_from n 0 raw
