-- ===== src/Pull.antt =====
-- dtu/src/tasks/pull.rs: the task that pulls the frameworks and APKs of a device and decompiles them.
pub mod FileTypes
pub mod Files
pub mod Exec
pub mod Status
pub mod Decompile
pub mod Filesets
pub mod Finding
pub mod Run
mod Tests
