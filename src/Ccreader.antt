-- ===== src/Ccreader.antt =====
-- src/ccreader.c. `Reading` and `Loop` are what the protocol readers share; `Nodes` is the list of
-- writers of a reader, and `Writers` the processing of a packet.
pub mod Reading
pub mod Loop
pub mod Nodes
pub mod Writers
pub mod Addressing
pub mod Delivery
pub mod Protocols
pub mod Total
mod Tests
