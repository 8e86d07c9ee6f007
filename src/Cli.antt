-- ===== src/Cli.antt =====
-- internal/cli: the parts of the command line that decide something.
pub mod Launch
