-- ===== src/Endpoint.antt =====
-- applog_endpoint: streams of application logs over websockets.
pub mod Arguments
pub mod Stream
pub mod Drain
pub mod Sessions
pub mod Server
pub mod Router
pub mod Config
