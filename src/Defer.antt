-- ===== src/Defer.antt =====
-- src/defer.c: the packets that wait to be sent later.
pub mod Queue
pub mod Engine
pub mod Memory
pub mod Next
pub mod Lists
pub mod Order
pub mod Waiting
pub mod Listed
mod Tests
