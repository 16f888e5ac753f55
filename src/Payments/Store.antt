-- ===== src/Payments/Store.antt =====
-- backend/payments/store.go (`PostgresStore`) with the checks, unique indexes and triggers of
-- backend/migrations/payments. Each call is one database transaction: it fails with nothing written,
-- or writes all. A text column that is NULL is the empty text: `NULLIF($n, '')` writes no other.
-- How the driver turns columns into Go values is not modelled.
pub mod Rows
pub mod Reads
pub mod Writes
pub mod Settlement
pub mod Refunds
pub mod Keys
pub mod Stamps
