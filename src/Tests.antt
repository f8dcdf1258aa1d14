-- ===== src/Tests.antt =====
-- Runs of the definitions on concrete inputs, and uses of the theorems at such inputs.
mod Chunks
mod Heads
mod Bodies
mod Requests
mod Windows
mod Pools
mod Channels
mod Links
mod Uploads
mod Dialers
mod Sessions
mod Trips
mod Sharing
