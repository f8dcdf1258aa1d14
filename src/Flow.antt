-- ===== src/Flow.antt =====
-- internal/transport/h2c/flow.go and `takeOutflow` of stream.go: the flow control windows of HTTP/2.
pub mod Outflow
pub mod Inflow
pub mod Take
