-- ===== src/Vehicles.antt =====
-- backend/vehicles: the vehicle registry.
pub mod Vin
