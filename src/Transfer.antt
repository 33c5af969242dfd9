-- ===== src/Transfer.antt =====
-- vsock/protocol/common/file_transfer.go: a file goes from one side to the other by an open request,
-- a streamed body and a commit request.
pub mod Paths
pub mod Framing
pub mod Receive
pub mod Send
pub mod Create
