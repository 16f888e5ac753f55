-- ===== src/Inspections.antt =====
-- backend/inspections: the sessions in which a vehicle is inspected, and their reports.
pub mod Status
pub mod World
pub mod Scope
pub mod Templates
pub mod Store
pub mod Report
pub mod Service
pub mod Evolution
pub mod Sealed
pub mod Issued
pub mod Verified
pub mod Refusals
pub mod Selection
pub mod Readiness
pub mod Digits
pub mod Inserted
pub mod Runs
mod Tests
