-- ===== src/Diff/Results.antt =====
-- What the comparison of each kind of component achieves.
pub mod Apks
pub mod Ipc
pub mod Named
pub mod Services
pub mod Runs
