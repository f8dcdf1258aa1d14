-- ===== src/Streams.antt =====
-- internal/transport/h2c: the settings of both sides (controller/settings.go) and the streams that are
-- open (conn.go). The validity of a setting is decided by `http2.Setting.Valid`, which is not of this
-- repository: it is the parameter `valid`.
pub mod Settings
pub mod Headers
pub mod Opening
pub mod Numbering
pub mod Windows
pub mod Lives
pub mod Dispatch
pub mod Handlers
pub mod Ends
pub mod Messages
pub mod Handling
pub mod Starting
pub mod Runs
pub mod Accounts
pub mod Locks
pub mod Buffers
pub mod Body
pub mod Uploads
pub mod Rounds
pub mod Sending
pub mod Stalls
pub mod Greeting
pub mod Cutting
pub mod Fitting
pub mod Padding
pub mod Standstill
