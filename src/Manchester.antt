-- ===== src/Manchester.antt =====
-- src/manchester.c: messages of three bytes, each with one command for one receiver.
pub mod Codes
pub mod Encode
pub mod Decode
pub mod Fields
pub mod Speed
pub mod Roundtrip
pub mod Sending
pub mod Stream
mod Tests
