-- ===== src/GeeRpc.antt =====
-- geeRpc: remote procedure calls.
pub mod Client
pub mod Codec
pub mod Discovery
pub mod Registry
pub mod Heartbeat
pub mod XClient
pub mod Broadcast
pub mod Handshake
pub mod Service
pub mod Server
mod Tests
