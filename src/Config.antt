-- ===== src/Config.antt =====
-- internal/config and internal/profiles: the configuration, its validation and the launch profiles.
pub mod Render
pub mod Types
pub mod Adaptive
pub mod Validate
pub mod Profiles
mod Tests
