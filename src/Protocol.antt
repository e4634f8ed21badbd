-- ===== src/Protocol.antt =====
-- The binary protocol: include/protocol/protocol.h and src/protocol/protocol.cpp.
pub mod Wire
pub mod Message
pub mod Codec
mod Fields
pub mod RoundTrip
pub mod Reply
pub mod Types
mod Examples
