-- ===== src/PelcoD.antt =====
-- src/pelco_d.c: the Pelco D protocol.
pub mod Bits
pub mod Encode
pub mod Decode
pub mod Checksum
pub mod Kept
pub mod Layout
pub mod Modes
pub mod Message
pub mod Speed
pub mod Decoded
pub mod Roundtrip
pub mod Stream
pub mod Extended
pub mod Detection
mod Tests
