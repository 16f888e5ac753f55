-- ===== src/Identity.antt =====
-- backend/identity: accounts, roles, refresh sessions, verification tokens and passwords.
pub mod Roles
pub mod World
pub mod Store
pub mod Password
pub mod Issuer
pub mod Email
pub mod Service
pub mod Evolution
pub mod Rotation
pub mod Protocol
pub mod Directory
pub mod PasswordChange
pub mod Refusals
mod Tests
