-- ===== src/Server.antt =====
-- src/server.rs: what stands between the listener and the handlers.
pub mod RateLimit
pub mod Admission
pub mod Redaction
pub mod Requests
pub mod TimedBody
pub mod Listener
pub mod Startup
