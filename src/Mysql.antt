-- ===== src/Mysql.antt =====
-- runtime/vader_mysql.c: the client of MySQL and MariaDB.
pub mod Sha1
pub mod Packet
pub mod Rows
pub mod Login
mod Tests
