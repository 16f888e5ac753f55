-- ===== src/Payments/Redelivery.antt =====
-- Deliveries of a webhook that come again.
pub mod Correlation
pub mod Keys
pub mod Applied
pub mod Runs
pub mod Laws
pub mod Refusals
