-- ===== src/Api.antt =====
-- internal/api/: the parts of the HTTP server that decide something from values alone.
pub mod ClientIp
pub mod Spoofing
pub mod Limiter
pub mod Naming
