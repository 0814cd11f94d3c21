-- ===== src/Diff.antt =====
-- The comparison of a device's database with another: dtu/src/db/device/diff.rs.
pub mod Rows
pub mod Inserts
pub mod Database
pub mod Exec
pub mod SystemServices
pub mod Components
pub mod Task
pub mod Kind
pub mod Kinds
pub mod Results
pub mod Comparison
mod Memory
mod Sample
mod Tests
