-- ===== src/Http1.antt =====
-- internal/transport/http1: the HTTP/1.1 connection.
pub mod Utils
pub mod Response
pub mod Header
pub mod Write
pub mod Session
