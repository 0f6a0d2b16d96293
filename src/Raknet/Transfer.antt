-- ===== src/Raknet/Transfer.antt =====
-- What src/raknet/send.rs makes of the program's packets, taken in by src/raknet/recv.rs.
pub mod Parts
pub mod Outgoing
pub mod RoundTrip
pub mod Listed
pub mod Wire
pub mod AnyOrder
pub mod EndToEnd
pub mod Acknowledged
mod Tests
