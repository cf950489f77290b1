-- ===== src/Scram.antt =====
-- runtime/vader_scram.c: the primitives of SCRAM-SHA-256.
pub mod Sha256
pub mod Hmac
pub mod Base64
