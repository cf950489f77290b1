-- ===== src/Digest.antt =====
-- The buffer of 64 bytes through which SHA-1 of runtime/vader_mysql.c and MD5 of runtime/vader_pg.c read
-- their input, over the transform of a full buffer.
pub mod Blocks
pub mod Roots
pub mod Words
pub mod Fips
pub mod Rfc1321
pub mod Whole
use vader_langue.Prelude.{ℕ, ◌+◌, Bool, [], ◌∷◌, Bytes, ◌==◌, if◌then◌else◌, set}

-- The buffer, the number of bytes that wait in it, and the hash of the blocks before them.
pub record Pending (S : Type 0) : Type 0 where
  pub bytes : Bytes
  pub fill : ℕ
  pub state : S

-- One round of the update loops.
unfoldable pub put_byte : {S : Type 0} → (S → Bytes → S) → Pending S → ℕ → Pending S
put_byte transform p x =
    let bytes = set p.bytes p.fill x in
    if p.fill + 1 == 64
    then record { bytes = bytes; fill = 0; state = transform p.state bytes }
    else record { bytes = bytes; fill = p.fill + 1; state = p.state }

unfoldable pub absorb : {S : Type 0} → (S → Bytes → S) → Pending S → Bytes → Pending S
absorb transform p [] = p
absorb transform p (x ∷ s) = absorb transform (put_byte transform p x) s
