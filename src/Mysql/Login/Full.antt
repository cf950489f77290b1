-- ===== src/Mysql/Login/Full.antt =====
-- runtime/vader_mysql.c: what the loop of the login does with a packet, and the full authentication of
-- caching_sha2_password, for which the password is encrypted with the server's key.
use Prim.Native.Nat.{bit_xor}
use vader_langue.Prelude.{
  ℕ, suc, ◌+◌, ◌%◌, ◌≡◌, refl, ap, ◌∙◌, Option, none, some, [], ◌∷◌, ◌++◌, Bytes, codes, get_or,
}
use vader_langue.Prelude.Xor.{bit_xor_twice}
use vader_langue.Net.{Wire}
use vader_langue.Mysql.Packet.{read_packet, write_packet}
use vader_langue.Mysql.Rows.{MyConn}

-- What the loop does with a packet: it returns, reads outside the packet, or goes on with another salt.
pub data AuthStep : Type 0 where
  stop : MyConn → AuthStep
  outside : AuthStep
  again : Bytes → Wire → AuthStep

abbrev pub failed : Bytes → AuthStep
failed err = stop (record { fd = none; err = err })

-- `rsa_oaep_encrypt` by the library of a build with VADER_TLS: the cipher text of a text with a key, if there
-- is one; `none` for a build without.
abbrev pub Tls : Type 0
Tls = Option (Bytes → Bytes → Option Bytes)

-- `xored`, from the byte `z` on; the array of 256 bytes is long enough for a password.
unfoldable pub xored : ℕ → Bytes → Bytes → Bytes
xored z salt [] = []
xored z salt (c ∷ s) = bit_xor c (get_or salt (z % 20) 0) ∷ xored (suc z) salt s

-- The password with its NUL.
unfoldable pub sealed : Bytes → Bytes → Bytes
unfolding xored
sealed pass salt = xored 0 salt (pass ++ 0 ∷ [])

abbrev pub encrypted : Bytes → ℕ → Wire → Option Bytes → AuthStep
encrypted salt seq w none = failed (codes "RSA encrypt failed")
encrypted salt seq w (some enc) = again salt (write_packet w enc (seq + 1)).1

-- With the packet that holds the server's key behind its first byte.
abbrev pub with_key :
    (Bytes → Bytes → Option Bytes) → Bytes → Bytes → Option (ℕ × Bytes) → Wire → AuthStep
with_key encrypt pass salt none w = failed []
with_key encrypt pass salt (some (seq, [])) w = outside
with_key encrypt pass salt (some (seq, b ∷ pem)) w =
    encrypted salt seq w (encrypt pem (sealed pass salt))

unfoldable pub full_auth : Tls → Bytes → ℕ → Bytes → Wire → AuthStep
full_auth none pass seq salt w =
    failed (codes "caching_sha2 full auth needs --tls (or a cached credential)")
full_auth (some encrypt) pass seq salt w =
    let w1 = (write_packet w (0x02 ∷ []) (seq + 1)).1 in
    with_key encrypt pass salt (read_packet w1).0 (read_packet w1).1

xored_twice : (z : ℕ) (salt s : Bytes) → xored z salt (xored z salt s) ≡ s
unfolding xored
xored_twice z salt [] = refl
xored_twice z salt (c ∷ s) =
    rw (bit_xor_twice c (get_or salt (z % 20) 0)) (ap (λ t. c ∷ t) (xored_twice (suc z) salt s))

-- A server that decrypts what it is sent, and takes the salt off, has the password with its NUL.
pub xored-decrypt :
    (encrypt : Bytes → Bytes → Option Bytes) (decrypt : Bytes → Bytes) (pem pass salt enc : Bytes)
    → ((text code : Bytes) → encrypt pem text ≡ some code → decrypt code ≡ text)
    → encrypt pem (sealed pass salt) ≡ some enc
    → xored 0 salt (decrypt enc) ≡ pass ++ 0 ∷ []
unfolding sealed
xored-decrypt encrypt decrypt pem pass salt enc law e =
    ap (xored 0 salt) (law (sealed pass salt) enc e) ∙ xored_twice 0 salt (pass ++ 0 ∷ [])
