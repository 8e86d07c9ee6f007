-- ===== src/Engine.antt =====
-- internal/engine: the boot phases read from the log, the manager of engine operations, and the arguments
-- that the engine is launched with.
pub mod Boot
pub mod Manager
pub mod Snapshot
pub mod Launch
