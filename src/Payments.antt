-- ===== src/Payments.antt =====
-- backend/payments: the ledger of payment intents, transactions and refunds.
pub mod Status
pub mod Money
pub mod Types
pub mod Scope
pub mod World
pub mod Store
pub mod Service
pub mod Reconcile
pub mod Calls
pub mod Ledger
pub mod Redelivery
pub mod Refusals
pub mod Audit
pub mod Settled
mod Tests
