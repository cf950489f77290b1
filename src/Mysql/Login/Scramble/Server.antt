-- ===== src/Mysql/Login/Scramble/Server.antt =====
-- What the server makes of the proof of a password: it has SHA1(SHA1(password)), or the like of SHA-256.
use vader_langue.Prelude.{◌≡◌, refl, ap, ◌∙◌, arith, [], ◌∷◌, ◌++◌, Bytes, length, take-all}
use vader_langue.Prelude.Xor.{bit_xor_twice}
use vader_langue.Scram.Hmac.{xor_bytes}
use vader_langue.Mysql.Sha1.{sha1}
use vader_langue.Mysql.Login.Scramble.{native_scramble}

pub xor_bytes_twice : (s t : Bytes) → xor_bytes (xor_bytes s t) t ≡ s
unfolding xor_bytes
xor_bytes_twice [] [] = refl
xor_bytes_twice [] (y ∷ t) = refl
xor_bytes_twice (x ∷ s) [] = refl
xor_bytes_twice (x ∷ s) (y ∷ t) =
    ap (λ z. z ∷ xor_bytes (xor_bytes s t) t) (bit_xor_twice x y)
    ∙ ap (λ l. x ∷ l) (xor_bytes_twice s t)

-- The server's test: with the salt it has sent and the hash it has stored, the proof gives back a text
-- whose hash is the stored one.
unfoldable pub NativeAccepts : Bytes → Bytes → Bytes → Bytes → Type 0
NativeAccepts garbage salt stored proof =
    sha1 garbage (xor_bytes proof (sha1 garbage (salt ++ stored))) ≡ stored

-- For a salt of 20 bytes, the server accepts the proof of the password that it has stored.
pub native_scramble-NativeAccepts :
    (garbage pass salt : Bytes)
    → length salt ≡ 20
    → NativeAccepts garbage salt
        (sha1 garbage (sha1 garbage pass))
        (native_scramble garbage pass salt)
unfolding NativeAccepts native_scramble
native_scramble-NativeAccepts garbage pass salt h =
    ap
      (λ t. sha1 garbage (
        xor_bytes
          (xor_bytes (sha1 garbage pass) (sha1 garbage (t ++ sha1 garbage (sha1 garbage pass))))
          (sha1 garbage (salt ++ sha1 garbage (sha1 garbage pass)))))
      (take-all 20 salt (omega arith))
    ∙ ap (sha1 garbage) (
        xor_bytes_twice (sha1 garbage pass)
          (sha1 garbage (salt ++ sha1 garbage (sha1 garbage pass))))
