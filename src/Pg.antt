-- ===== src/Pg.antt =====
-- runtime/vader_pg.c: the client of PostgreSQL.
pub mod Md5
pub mod Crypto
pub mod Message
pub mod Rows
pub mod Scram
pub mod Login
mod Tests
