-- ===== src/Joystick.antt =====
-- src/joystick.c: the events of a joystick, decoded to the packet of its reader.
pub mod Events
pub mod Read
pub mod Speeds
pub mod Presets
mod Tests
