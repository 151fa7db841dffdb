-- ===== src/Infinova.antt =====
-- src/infinova.c: Pelco D messages behind headers.
pub mod Write
pub mod Frames
mod Tests
