-- ===== src/Protocol.antt =====
-- src/protocol.rs: the messages, and the frames that carry them. postcard is a parameter.
pub mod Codec
pub mod Frames
pub mod Token
pub mod Closed
