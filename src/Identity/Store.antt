-- ===== src/Identity/Store.antt =====
-- backend/identity/store.go (`PostgresStore`) with the unique indexes, the foreign keys and the checks
-- of backend/migrations/identity. Each call is one database transaction: it fails with nothing written,
-- or writes all.
pub mod Users
pub mod Sessions
pub mod Tokens
