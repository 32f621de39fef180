-- ===== src/Compact/RoundTrip.antt =====
-- Compressed packets come out of the other side as they went in, but for the IP header.
pub mod Memory
pub mod Udp
pub mod Flags
pub mod Fields
pub mod Frames
pub mod Tcp
pub mod Check
pub mod Plain
mod Tests
