-- ===== src/Protocol.antt =====
-- src/protocol/src/lib.rs: the framing of packets, a bounded encoder, a payload reader and the
-- incremental decoder, with the constants that src/workspace/wire.h gives it.
pub mod Wire
pub mod Buffer
pub mod Payload
pub mod Packet
pub mod Decoder
mod Tests
