-- ===== src/Pg/Scram/Server.antt =====
-- What a server of RFC 5802 makes of the texts of `scram_auth`: it has the hash of the client key, and
-- no password. The hash, HMAC and base64 are those of the code.
use vader_langue.Prelude.{ℕ, ◌≡◌, ◌∷◌, ◌++◌, Bytes, codes, length}
use vader_langue.Scram.Hmac.{xor_bytes}
use vader_langue.Pg.Crypto.{pg_sha256, pg_hmac_sha256, pg_pbkdf2_sha256, pg_b64_encode}
use vader_langue.Pg.Message.{put32}

-- What the server keeps of a password: StoredKey, with its salt and the number of iterations.
unfoldable pub stored_key : Bytes → Bytes → Bytes → ℕ → Bytes
stored_key garbage pass salt iter =
    pg_sha256 garbage
      (pg_hmac_sha256 garbage (pg_pbkdf2_sha256 garbage pass salt iter) (codes "Client Key"))

-- AuthMessage, of client-first-message-bare, server-first-message and client-final-message-without-proof.
unfoldable pub exchange_text : Bytes → Bytes → Bytes → Bytes
exchange_text first server_text final =
    first ++ (codes "," ++ (server_text ++ (codes "," ++ final)))

-- The server's reading of the client's two messages, behind its own text with the nonce `nonce`: without
-- channel binding, the proof in base64 at the end, and the test of the proof: without the signature
-- of the exchange it is a key whose hash is the stored one.
pub record ScramAccepts (garbage stored nonce server_text first final : Bytes) : Type 0 where
  pub bare : Bytes
  pub first_reads :
      first
      ≡ codes "SCRAM-SHA-256" ++ 0 ∷ (put32 (length (codes "n,," ++ bare)) ++ (codes "n,," ++ bare))
  pub proof : Bytes
  pub final_reads : final ≡ (codes "c=biws,r=" ++ nonce) ++ (codes ",p=" ++ pg_b64_encode proof)
  pub accepts :
      pg_sha256 garbage (
        xor_bytes proof (
          pg_hmac_sha256 garbage stored
            (exchange_text bare server_text (codes "c=biws,r=" ++ nonce))))
      ≡ stored
