-- ===== src/Ccpacket.antt =====
-- src/ccpacket.c and src/ccpacket.h: the protocol-neutral camera control packet.
-- `Flags` has the bit masks, `Modes` the checks of a mode, `Packet` the structure with its setters
-- and getters, `Queries` the tests on a whole packet.
pub mod Flags
pub mod Modes
pub mod Packet
pub mod Queries
pub mod Group
pub mod Frames
pub mod Preset
pub mod Values
pub mod Bounds
pub mod Updates
mod Tests
