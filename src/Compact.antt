-- ===== src/Compact.antt =====
-- compact.c: header compression. A flow of packets is announced once, with its headers; once the
-- other side has acknowledged it, its packets travel with a header of 3 bytes and the fields that
-- change.
pub mod Ipv4
pub mod Types
pub mod Encode
pub mod Decode
pub mod RoundTrip
pub mod Table
pub mod Flows
pub mod Xmit
pub mod Ids
pub mod Inv
pub mod Link
mod Tests
