-- ===== src/Controller.antt =====
-- internal/transport/h2c/controller: what a connection of HTTP/2 is before it has streams.
pub mod Frames
pub mod Closing
pub mod Once
pub mod Serving
pub mod Pings
pub mod Fields
pub mod Limits
