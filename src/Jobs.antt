-- ===== src/Jobs.antt =====
-- backend/jobs: the operational unit that is dispatched, inspected and repaired.
pub mod Status
pub mod World
pub mod Store
pub mod Service
pub mod Audit
mod Tests
