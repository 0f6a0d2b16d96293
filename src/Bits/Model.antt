-- ===== src/Bits/Model.antt =====
-- One bit stream that keeps every law of `Bits`: a list of bits. The examples run on it.
pub mod Number
pub mod Write
pub mod Read
unfoldable pub use Number.{number_from}
unfoldable pub use Write.{list_write, list_write_laws, pack}
unfoldable pub use Read.{list_read, list_read_laws, take_bit, take_int, take_bytes}
