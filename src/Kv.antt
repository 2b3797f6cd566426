-- ===== src/Kv.antt =====
-- The packages that keep values under keys: packages/evoid-sqlite, packages/evoid-postgresql,
-- packages/evoid-scylla and packages/evoid-redis.
pub mod Commands
pub mod Posts
pub mod RowStore
pub mod Postgres
pub mod Redis
pub mod Scylla
pub mod Sqlite
pub mod Table
