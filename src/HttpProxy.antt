-- ===== src/HttpProxy.antt =====
-- src/http_proxy/mod.rs and its submodules: requests other than CONNECT.
pub mod LimitedBody
pub mod Expiry
pub mod Stored
pub mod CacheWrite
pub mod Upstream
pub mod Handler
pub mod Storing
pub mod Forwarding
pub mod Committing
pub mod CacheBody
pub mod Reuse
