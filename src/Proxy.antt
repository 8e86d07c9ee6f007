-- ===== src/Proxy.antt =====
-- internal/proxy: the request registry and the streaming relay of the front door.
pub mod Registry
pub mod Relay
pub mod Headers
pub mod FrontDoor
pub mod Messages
