-- ===== src/Dialer.antt =====
-- internal/dialer: where a request's connection goes, the resolver's configuration, proxies; and what
-- internal/client.go and internal/helpers.go do with dialers.
pub mod Addresses
pub mod Resolving
pub mod Dialing
pub mod Proxying
pub mod Clients
pub mod Sharing
pub mod Dials
pub mod Contexts
