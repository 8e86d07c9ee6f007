-- ===== src/Auth.antt =====
-- internal/auth: the login lockout, the web sessions and the credentials.
pub mod Limiter
pub mod Sessions
pub mod Vault
pub mod Store
