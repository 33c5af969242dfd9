-- ===== src/Vsock.antt =====
-- The vsock package: message framing, sends, acknowledgements, requests, dispatch and codecs.
pub mod Errors
pub mod Io
pub mod Wire
pub mod Message
pub mod Link
pub mod Ack
pub mod Send
pub mod Source
pub mod Request
pub mod Messenger
