-- ===== src/Bytes/Message/Stack.antt =====
-- The message as a stack of bytes: what each operation does to the bytes that it holds.
pub mod Chunks
pub mod Reads
pub mod Discards
pub mod Writes
