-- ===== src/Server.antt =====
-- internal/server: the console's engine operations, its authentication and its log bus.
pub mod Ops
pub mod LogBus
pub mod Access
