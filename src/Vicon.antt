-- ===== src/Vicon.antt =====
-- src/vicon.c: messages of two, six or ten bytes, of which the first has its high bit set.
pub mod Bits
pub mod Encode
pub mod Decode
pub mod Stream
pub mod Received
pub mod Fields
pub mod Message
pub mod Wire
pub mod Decoded
pub mod Roundtrip
mod Tests
