-- ===== src/Transport.antt =====
-- internal/transport/h2c.go, a round trip on an HTTP/2 stream, and the errors of a stream
-- (internal/transport/h2c/errors/errors.go).
pub mod Errors
pub mod Responses
pub mod Requests
pub mod RoundTrips
