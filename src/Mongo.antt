-- ===== src/Mongo.antt =====
-- runtime/vader_mongo.c: the client of MongoDB.
pub mod Bson
pub mod Exchange
pub mod Commands
pub mod Login
pub mod Replies
mod Tests
