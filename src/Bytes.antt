-- ===== src/Bytes.antt =====
-- The crate cjdns-bytes: readers and writers of byte buffers, and the formats built on them.
pub mod Errors
pub mod Reader
pub mod Writer
pub mod Message
pub mod Tlv
pub mod VarInt
mod Tests
