-- ===== src/Chunked.antt =====
-- internal/transport/chunked: the chunked transfer coding.
pub mod Reader
pub mod Writer
pub mod Framing
pub mod Bounds
pub mod Decoding
pub mod RoundTrip
