-- ===== src/Setup.antt =====
-- How the device's database is set up: dtu/src/db/device/setup.rs.
pub mod Rows
pub mod Exec
pub mod Written
pub mod Success
pub mod Manifests
pub mod Apks
pub mod Progress
pub mod Props
pub mod Signatures
mod Tests
