-- ===== src/Buffer.antt =====
-- src/buffer.c: a linear buffer between a producer at `pin` and a consumer at `pout`.
pub mod Defs
pub mod Inv
pub mod Queue
mod Tests
