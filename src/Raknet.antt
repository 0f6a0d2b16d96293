-- ===== src/Raknet.antt =====
-- The RakNet side of the program, `src/raknet/`.
pub mod Comp
pub mod RangeList
pub mod Packet
pub mod Recv
pub mod Send
pub mod Connection
pub mod Transfer
