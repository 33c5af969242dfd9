-- ===== src/Protocol.antt =====
-- vsock/codec.go and vsock/protocol: typed messages, requests and heartbeats on a messenger.
pub mod Types
pub mod Codec
pub mod Send
pub mod Receive
pub mod Respond
pub mod Ask
pub mod Deliver
pub mod Heartbeat
