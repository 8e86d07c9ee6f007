-- ===== src/Proxy/Messages.antt =====
-- internal/proxy/anthropic.go: the Messages protocol on top of the engine's chat protocol.
pub mod Stream
pub mod Answer
pub mod Json
pub mod Request
