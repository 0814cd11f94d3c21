-- ===== src/Manifest.antt =====
-- Manifests and their resources: dtu/src/manifest.rs.
pub mod Xml
pub mod References
pub mod Arrays
pub mod Resolvers
pub mod Items
mod Tests
