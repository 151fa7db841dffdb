-- ===== src/PelcoP.antt =====
-- src/pelco_p.c: messages of eight bytes, between a start and an end byte.
pub mod Bits
pub mod Checksum
pub mod Encode
pub mod Decode
pub mod Speed
pub mod Extended
pub mod Message
pub mod Wire
pub mod Decoded
pub mod Roundtrip
pub mod Stream
mod Tests
