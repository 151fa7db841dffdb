-- ===== src/Ccwriter.antt =====
-- src/ccwriter.c. `Append` is the access of a protocol to the transmit buffer of its writer.
pub mod Append
pub mod Written
pub mod Writer
pub mod Slots
pub mod Safety
pub mod Gap
pub mod Stops
pub mod Repeated
pub mod Protocols
pub mod Ready
mod Tests
